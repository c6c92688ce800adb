-- ===== src/Textutil.antt =====
-- daemon/src/textutil.c: previews, the text of HTML, and paths from a URI list. A text with an index is
-- the list of the bytes from the index on, `buf` is the list of the bytes appended so far, and a loop
-- takes the length of the text as its fuel. The texts are C strings, without a NUL.
-- `human_size` stands with its user, in Db/Clips/Derive.
pub mod Rounds
pub mod Words
pub mod Preview
pub mod Uri
pub mod Html
pub mod Tests
use clipnet.Base.{
  ℕ, zero, suc, ◌+◌, ◌-◌, ◌*◌, Bool, true, false, ◌&&◌, ◌||◌, not, Option, none, some, [], ◌∷◌,
  ◌++◌, ltb, leb, ◌==◌, if◌then◌else◌, length, take, drop, Bytes, codes, starts_with,
}
use clipnet.Util.Utf8.{seq_len}

unfoldable pub is_space : ℕ → Bool
is_space c = c == b' ' || c == b'\t' || c == b'\n' || c == b'\r' || c == 12 || c == 11

-- One round of `text_preview` at the byte `c`, behind which `s` stands.
pub data Round : Type 0 where
  next : Bytes → ℕ → Bool → Bytes → Round
  stop : Bytes → Round

-- Copy the sequence at the byte `c`.
unfoldable pub preview_copy : ℕ → Bytes → ℕ → Bytes → Round
preview_copy c s chars out =
    if ltb (suc (length s)) (seq_len c)
    then stop out
    else next (drop (seq_len c) (c ∷ s)) (chars + 1) false (out ++ take (seq_len c) (c ∷ s))

unfoldable pub preview_round : ℕ → ℕ → Bytes → ℕ → Bool → Bytes → Round
preview_round most c s chars pending out =
    if is_space c
    then next s chars (ltb 0 (length out)) out
    else if ltb c 0x20 || c == 0x7F
    then next s chars pending out
    else if pending
    then if leb most (chars + 1) then stop out else preview_copy c s (chars + 1) (out ++ b' ' ∷ [])
    else preview_copy c s chars out

unfoldable pub preview_loop : ℕ → ℕ → Bytes → ℕ → Bool → Bytes → Bytes
unfolding preview_round
preview_loop most fuel [] chars pending out = out
preview_loop most zero (c ∷ s) chars pending out = out
preview_loop most (suc fuel) (c ∷ s) chars pending out = elim (ltb chars most) [
  | false ↦ out
  | true ↦ elim (preview_round most c s chars pending out) [
    | stop r ↦ r
    | next s' chars' pending' out' ↦ preview_loop most fuel s' chars' pending' out'
  ]
]

unfoldable pub text_preview : Bytes → ℕ → Bytes
unfolding preview_loop
text_preview s most = preview_loop most (length s) s 0 false []

-- `hexval`; `none` is the result -1.
unfoldable pub hexval : ℕ → Option ℕ
hexval c =
    if leb b'0' c && leb c b'9'
    then some (c - b'0')
    else if leb b'a' c && leb c b'f'
    then some (c - b'a' + 10)
    else if leb b'A' c && leb c b'F'
    then some (c - b'A' + 10)
    else none

-- The inner loop of `uri_list_to_paths` over one line.
unfoldable pub percent_decode : Bytes → Bytes
unfolding hexval
percent_decode [] = []
percent_decode (c ∷ []) = c ∷ []
percent_decode (c ∷ x ∷ []) = c ∷ percent_decode (x ∷ [])
percent_decode (c ∷ x ∷ y ∷ s) = elim (c == b'%') [
  | false ↦ c ∷ percent_decode (x ∷ y ∷ s)
  | true ↦ elim (hexval x) [
    | none ↦ c ∷ percent_decode (x ∷ y ∷ s)
    | some h ↦ elim (hexval y) [
      | none ↦ c ∷ percent_decode (x ∷ y ∷ s)
      | some l ↦ (h * 16 + l) ∷ percent_decode s
    ]
  ]
]

abbrev pub is_eol : ℕ → Bool
is_eol c = c == b'\n' || c == b'\r'

-- The text up to the first byte of a class, and the text from there on.
module _ (p : ℕ → Bool) where
  unfoldable pub until : Bytes → Bytes
  until [] = []
  until (c ∷ s) = if p c then [] else c ∷ until s

  unfoldable pub from : Bytes → Bytes
  from [] = []
  from (c ∷ s) = if p c then c ∷ s else from s

-- `memchr(line, '/', len)`, or the whole line.
unfoldable pub from_slash : Bytes → Bytes
from_slash line = elim (from (λ c. c == b'/') line) [ [] ↦ line | c ∷ s ↦ c ∷ s ]

unfoldable pub strip_scheme : Bytes → Bytes
strip_scheme line = if starts_with (codes "file://") line then from_slash (drop 7 line) else line

-- What a line appends to the output.
unfoldable pub uri_line : Bytes → Bytes → Bytes
uri_line [] out = out
uri_line (c ∷ line) out =
    if c == b'#'
    then out
    else (if ltb 0 (length out) then out ++ b'\n' ∷ [] else out)
      ++ percent_decode (strip_scheme (c ∷ line))

-- Each round reads a line and the line breaks behind it.
unfoldable pub uri_loop : ℕ → Bytes → Bytes → Bytes
uri_loop fuel [] out = out
uri_loop zero (c ∷ s) out = out
uri_loop (suc fuel) (c ∷ s) out =
    uri_loop fuel (from (λ x. not (is_eol x)) (from is_eol (c ∷ s)))
      (uri_line (until is_eol (c ∷ s)) out)

unfoldable pub uri_list_to_paths : Bytes → Bytes
unfolding uri_loop
uri_list_to_paths s = uri_loop (length s) s []
