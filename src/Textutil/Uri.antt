-- ===== src/Textutil/Uri.antt =====
-- `uri_list_to_paths` and `percent_decode` on escaped file URIs.
use clipnet.Base.{
  ℕ, zero, suc, ◌+◌, ◌*◌, ◌≤◌, ◌<◌, ◌≡◌, refl, sym, ap, ◌∙◌, ◌≢◌, Bool, true, false, not, some,
  List, [], ◌∷◌, ◌++◌, append-nil, append_assoc, arith, ltb, ◌==◌, if◌then◌else◌, length,
  length-append, All, All-append, Bytes, codes,
}
use clipnet.Textutil.{
  hexval, percent_decode, is_eol, until, from, strip_scheme, uri_loop, from_slash, uri_line,
  uri_list_to_paths,
}

-- `e` spells the path `p`: a byte other than `%` stands for itself, and any byte may be escaped.
pub data Spells : Bytes → Bytes → Type 0 where
  spells_nil : Spells [] []
  spells_plain : (c : ℕ) {e p : Bytes} → c ≢ b'%' → Spells e p → Spells (c ∷ e) (c ∷ p)
  spells_escape :
      (x y : ℕ) {h l : ℕ} {e p : Bytes}
      → hexval x ≡ some h
      → hexval y ≡ some l
      → Spells e p
      → Spells (b'%' ∷ x ∷ y ∷ e) ((h * 16 + l) ∷ p)

percent_decode-plain :
    (c : ℕ) (e : Bytes) → c ≢ b'%' → percent_decode (c ∷ e) ≡ c ∷ percent_decode e
unfolding percent_decode
percent_decode-plain c [] h = refl
percent_decode-plain c (x ∷ []) h = refl
percent_decode-plain c (x ∷ y ∷ e) h = ground arith

percent_decode-escape :
    (x y h l : ℕ) (e : Bytes)
    → hexval x ≡ some h
    → hexval y ≡ some l
    → percent_decode (b'%' ∷ x ∷ y ∷ e) ≡ (h * 16 + l) ∷ percent_decode e
unfolding percent_decode
percent_decode-escape x y h l e hx hy = ground (arith, hx, hy)

-- Percent decoding reads back every spelling of a path.
percent_decode-Spells : {e p : Bytes} → Spells e p → percent_decode e ≡ p
percent_decode-Spells spells_nil = unfold percent_decode in refl
percent_decode-Spells (spells_plain c {e = e} h t) =
    percent_decode-plain c e h ∙ ap (◌∷◌ c) (percent_decode-Spells t)
percent_decode-Spells (spells_escape x y {h = h} {l = l} {e = e} hx hy t) =
    percent_decode-escape x y h l e hx hy ∙ ap (◌∷◌ (h * 16 + l)) (percent_decode-Spells t)

-- A line of a URI list: a host, and a path that starts with a slash, as it is spelled.
pub record Entry : Type 0 where
  pub host : Bytes
  pub spelled : Bytes
  pub path : Bytes
  pub host_plain : All (λ c. (c ≢ b'/') × (is_eol c ≡ false)) host
  pub spelled_plain : All (λ c. is_eol c ≡ false) spelled
  pub spells : Spells (b'/' ∷ spelled) path

pub line : Entry → Bytes
line e = codes "file://" ++ (e.host ++ b'/' ∷ e.spelled)

-- Every line ends in CR LF, as RFC 2483 asks.
pub uri_list : List Entry → Bytes
uri_list [] = []
uri_list (e ∷ es) = line e ++ b'\r' ∷ b'\n' ∷ uri_list es

-- The paths with a line break before each.
unfoldable pub broken : List Entry → Bytes
broken [] = []
broken (e ∷ es) = b'\n' ∷ e.path ++ broken es

unfoldable pub lines : List Entry → Bytes
unfolding broken
lines [] = []
lines (e ∷ es) = e.path ++ broken es

module _ (p : ℕ → Bool) where
  until-append :
      (s : Bytes) (c : ℕ) (rest : Bytes)
      → All (λ x. p x ≡ false) s
      → p c ≡ true
      → until p (s ++ c ∷ rest) ≡ s
  unfolding until
  until-append [] c rest h e = rw e
  until-append (x ∷ s) c rest (hx, hs) e = rw hx (ap (◌∷◌ x) (until-append s c rest hs e))

  from-append :
      (s : Bytes) (c : ℕ) (rest : Bytes)
      → All (λ x. p x ≡ false) s
      → p c ≡ true
      → from p (s ++ c ∷ rest) ≡ c ∷ rest
  unfolding from
  from-append [] c rest h e = rw e
  from-append (x ∷ s) c rest (hx, hs) e = rw hx (from-append s c rest hs e)

line_plain : (e : Entry) → All (λ c. is_eol c ≡ false) (line e)
unfolding line
line_plain e =
    All-append (λ c. is_eol c ≡ false) (codes "file://") (e.host ++ b'/' ∷ e.spelled) (ground arith)
      (All-append (λ c. is_eol c ≡ false) e.host (b'/' ∷ e.spelled) (host_line e.host e.host_plain)
        (refl, e.spelled_plain))
  where
    host_line :
        (h : Bytes) → All (λ c. (c ≢ b'/') × (is_eol c ≡ false)) h → All (λ c. is_eol c ≡ false) h
    host_line [] k = tt
    host_line (c ∷ h) (k, ks) = (k.1, host_line h ks)

host_slash :
    (h : Bytes) → All (λ c. (c ≢ b'/') × (is_eol c ≡ false)) h → All (λ c. (c == b'/') ≡ false) h
host_slash [] k = tt
host_slash (c ∷ h) (k, ks) = (ground (arith, k.0), host_slash h ks)

from_slash-append :
    (h s : Bytes) → All (λ c. (c == b'/') ≡ false) h → from_slash (h ++ b'/' ∷ s) ≡ b'/' ∷ s
unfolding from_slash
from_slash-append h s k = rw (from-append (λ c. c == b'/') h b'/' s k refl, from_slash)

strip_scheme-line : (e : Entry) → strip_scheme (line e) ≡ b'/' ∷ e.spelled
unfolding strip_scheme line
strip_scheme-line e = from_slash-append e.host e.spelled (host_slash e.host e.host_plain)

break_skipped :
    (es : List Entry) → from (λ x. not (is_eol x)) (b'\r' ∷ b'\n' ∷ uri_list es) ≡ uri_list es
unfolding from uri_list line
break_skipped [] = refl
break_skipped (e ∷ es) = refl

Spells-pos : {e p : Bytes} → Spells e p → 0 < length e → 0 < length p
Spells-pos spells_nil h = h
Spells-pos (spells_plain c n t) h = omega arith
Spells-pos (spells_escape x y hx hy t) h = omega arith

uri_loop_round :
    (fuel : ℕ) (s out : Bytes)
    → uri_loop (suc fuel) s out
      ≡ uri_loop fuel (from (λ x. not (is_eol x)) (from is_eol s)) (uri_line (until is_eol s) out)
unfolding uri_loop
uri_loop_round fuel [] out = unfold from until uri_line in refl
uri_loop_round fuel (c ∷ s) out = refl

decode-line : (e : Entry) → percent_decode (strip_scheme (line e)) ≡ e.path
decode-line e = rw (strip_scheme-line e) (percent_decode-Spells e.spells)

uri_line-line :
    (e : Entry) (out : Bytes)
    → uri_line (line e) out ≡ (if ltb 0 (length out) then out ++ b'\n' ∷ [] else out) ++ e.path
unfolding uri_line line
uri_line-line e out =
    ap (◌++◌ (if ltb 0 (length out) then out ++ b'\n' ∷ [] else out)) (unfold line in decode-line e)

uri_loop_entry :
    (fuel : ℕ) (e : Entry) (es : List Entry) (out : Bytes)
    → uri_loop (suc fuel) (uri_list (e ∷ es)) out
      ≡ uri_loop fuel
          (uri_list es)
          ((if ltb 0 (length out) then out ++ b'\n' ∷ [] else out) ++ e.path)
unfolding uri_list
uri_loop_entry fuel e es out = rw (
  uri_loop_round fuel (line e ++ b'\r' ∷ b'\n' ∷ uri_list es) out,
  until-append is_eol (line e) b'\r' (b'\n' ∷ uri_list es) (line_plain e) refl,
  from-append is_eol (line e) b'\r' (b'\n' ∷ uri_list es) (line_plain e) refl,
  break_skipped es,
  uri_line-line e out,
)

uri_loop-uri_list :
    (fuel : ℕ) (es : List Entry) (out : Bytes)
    → length es ≤ fuel
    → 0 < length out
    → uri_loop fuel (uri_list es) out ≡ out ++ broken es
unfolding broken
uri_loop-uri_list fuel [] out enough h = unfold uri_loop uri_list in sym (append-nil out)
uri_loop-uri_list zero (e ∷ es) out enough h = absurd (omega arith)
uri_loop-uri_list (suc fuel) (e ∷ es) out enough h =
    let out' = (out ++ b'\n' ∷ []) ++ e.path in
    let more : uri_loop (suc fuel) (uri_list (e ∷ es)) out ≡ uri_loop fuel (uri_list es) out' =
      uri_loop_entry fuel e es out ∙ ground (arith, h) in
    more
    ∙ uri_loop-uri_list fuel es out' (omega arith)
        (omega (arith, length-append (out ++ b'\n' ∷ []) e.path, length-append out (b'\n' ∷ [])))
    ∙ simp append_assoc

length-uri_list : (es : List Entry) → length es ≤ length (uri_list es)
unfolding uri_list
length-uri_list [] = omega arith
length-uri_list (e ∷ es) =
    omega (arith, length-append (line e) (b'\r' ∷ b'\n' ∷ uri_list es), length-uri_list es)

uri_loop_first :
    (fuel : ℕ) (e : Entry) (es : List Entry)
    → length (e ∷ es) ≤ fuel
    → uri_loop fuel (uri_list (e ∷ es)) [] ≡ e.path ++ broken es
uri_loop_first zero e es enough = absurd (omega arith)
uri_loop_first (suc fuel) e es enough =
    uri_loop_entry fuel e es []
    ∙ uri_loop-uri_list fuel es e.path (omega arith) (Spells-pos e.spells (omega arith))

-- A list of file URIs, with or without hosts, in any spelling, becomes its paths, one to a line.
pub uri_list_to_paths-uri_list : (es : List Entry) → uri_list_to_paths (uri_list es) ≡ lines es
unfolding uri_list_to_paths lines
uri_list_to_paths-uri_list [] = unfold uri_list uri_loop in refl
uri_list_to_paths-uri_list (e ∷ es) =
    uri_loop_first (length (uri_list (e ∷ es))) e es (length-uri_list (e ∷ es))
