-- ===== src/Transform.antt =====
-- daemon/src/transform.c: the transforms. The array `c` of code points with an index is the list from the
-- index on, and `prev` is the code point before it, as the loop has left it. The functions of the
-- locale are the record `Locale`; `date` is the result of `now_str`. A text has no NUL and fewer than
-- 2^31 bytes, the bound of the `(int)len` of `append_date`. The decoder is in Util/Utf8.antt.
pub mod Case
pub mod Lines
pub mod Tests
use Prim.Native.String.{String}
use clipnet.Base.{
  ℕ, zero, suc, Bool, true, false, ◌&&◌, ◌||◌, not, Option, none, some, List, [], ◌∷◌, ◌++◌, map,
  ◌==◌, if◌then◌else◌, length, Bytes, codes, bytes_eq,
}
use clipnet.Util.Utf8.{decode, encode}
use clipnet.Textutil.{is_space, is_eol}

-- towupper, towlower, iswalpha, iswalnum and iswspace of the C library.
pub record Locale : Type 0 where
  pub up : ℕ → ℕ
  pub low : ℕ → ℕ
  pub alpha : ℕ → Bool
  pub alnum : ℕ → Bool
  pub space : ℕ → Bool

abbrev pub defs : List Bytes
defs =
    codes "upper"
    ∷ codes "lower"
    ∷ codes "title"
    ∷ codes "sentence"
    ∷ codes "invert"
    ∷ codes "camel"
    ∷ codes "snake"
    ∷ codes "slug"
    ∷ codes "trim"
    ∷ codes "one_line"
    ∷ codes "add_newline"
    ∷ codes "add_two_newlines"
    ∷ codes "append_date"
    ∷ codes "date"
    ∷ []

module _ (c : Locale) where
  abbrev pub alpha_at : Option ℕ → Bool
  alpha_at none = false
  alpha_at (some x) = c.alpha x

  abbrev pub head : List ℕ → Option ℕ
  head [] = none
  head (x ∷ xs) = some x

  unfoldable pub joins_word : Option ℕ → ℕ → List ℕ → Bool
  joins_word prev x xs = (x == 39 || x == 0x2019) && alpha_at prev && alpha_at (head xs)

  unfoldable pub title_from : Bool → Option ℕ → List ℕ → List ℕ
  unfolding joins_word
  title_from in_word prev [] = []
  title_from in_word prev (x ∷ xs) = elim (c.alnum x || (in_word && joins_word prev x xs)) [
    | true ↦ let y = if in_word then c.low x else c.up x in y ∷ title_from true (some y) xs
    | false ↦ x ∷ title_from false (some x) xs
  ]

  unfoldable pub t_title : List ℕ → List ℕ
  unfolding title_from
  t_title xs = title_from false none xs

  abbrev pub blank_line : ℕ → List ℕ → Bool
  blank_line x [] = false
  blank_line x (y ∷ ys) = x == b'\n' && y == b'\n'

  -- What a round of `t_sentence` writes, and its two flags afterwards.
  unfoldable pub sentence_round : Bool → Bool → ℕ → List ℕ → ℕ × Bool × Bool
  sentence_round start after_end x xs =
      if c.alpha x
      then (if start then c.up x else c.low x, false, false)
      else if x == b'.' || x == b'!' || x == b'?'
      then (x, start, true)
      else if c.space x
      then (x, start || after_end || blank_line x xs, after_end)
      else if not (c.alnum x)
      then (x, start, after_end)
      else (x, false, false)

  unfoldable pub sentence_from : Bool → Bool → List ℕ → List ℕ
  unfolding sentence_round
  sentence_from start after_end [] = []
  sentence_from start after_end (x ∷ xs) =
      let (y, start', after') = sentence_round start after_end x xs in
      y ∷ sentence_from start' after' xs

  unfoldable pub t_sentence : List ℕ → List ℕ
  unfolding sentence_from
  t_sentence xs = sentence_from true false xs

  unfoldable pub t_invert : List ℕ → List ℕ
  t_invert = map (λ x. if x == c.up x then c.low x else c.up x)

  -- `boundary`.
  unfoldable pub boundary : Bool → Option ℕ → ℕ → Bool
  boundary in_word none x = false
  boundary in_word (some p) x =
      in_word && c.alpha p && p == c.low p && c.alpha x && not (x == c.low x)

  -- The first letter of a word, with the separator before it.
  unfoldable pub word_start : Bool → ℕ → ℕ → ℕ → List ℕ
  word_start camel sep word x =
      (if not (word == 0) && not camel then sep ∷ [] else [])
      ++ (if camel && not (word == 0) then c.up x else c.low x) ∷ []

  unfoldable pub words_from : Bool → ℕ → ℕ → Bool → Option ℕ → List ℕ → List ℕ
  unfolding joins_word boundary word_start
  words_from camel sep word in_word prev [] = []
  words_from camel sep word in_word prev (x ∷ xs) = elim (joins_word prev x xs) [
    | true ↦ words_from camel sep word in_word (some x) xs
    | false ↦ elim (c.alnum x) [
      | false ↦ words_from camel sep word false (some x) xs
      | true ↦ elim (not in_word || boundary in_word prev x) [
        | true ↦ word_start camel sep word x ++ words_from camel sep (suc word) true (some x) xs
        | false ↦ c.low x ∷ words_from camel sep word in_word (some x) xs
      ]
    ]
  ]

  unfoldable pub words_joined : Bool → ℕ → List ℕ → Bytes
  unfolding words_from
  words_joined camel sep xs = encode (words_from camel sep 0 false none xs)

unfoldable pub trim_start : Bytes → Bytes
trim_start [] = []
trim_start (x ∷ s) = if is_space x then trim_start s else x ∷ s

-- The end of a text without the bytes of a class.
unfoldable pub trim_end : (ℕ → Bool) → Bytes → Bytes
trim_end p [] = []
trim_end p (x ∷ s) =
    let rest = trim_end p s in elim rest [ [] ↦ if p x then [] else x ∷ [] | y ∷ ys ↦ x ∷ y ∷ ys ]

unfoldable pub t_trim : Bytes → Bytes
unfolding trim_start trim_end
t_trim s = trim_end is_space (trim_start s)

abbrev pub is_blank_tab : ℕ → Bool
is_blank_tab x = x == b' ' || x == b'\t'

-- A run of line breaks and blanks in `t_one_line`: what stands in the buffer, and the text behind it.
unfoldable pub line_break : Bytes → Bytes → Bytes
unfolding trim_end
line_break out [] = trim_end is_blank_tab out
line_break out (x ∷ rest) = elim (trim_end is_blank_tab out) [
  | [] ↦ []
  | y ∷ ys ↦ (y ∷ ys) ++ b' ' ∷ []
]

unfoldable pub skip_breaks : Bytes → Bytes
skip_breaks [] = []
skip_breaks (x ∷ s) = if is_eol x || is_blank_tab x then skip_breaks s else x ∷ s

unfoldable pub one_line_from : ℕ → Bytes → Bytes → Bytes
unfolding line_break skip_breaks
one_line_from fuel [] out = out
one_line_from zero (x ∷ s) out = out
one_line_from (suc fuel) (x ∷ s) out = elim (is_eol x) [
  | true ↦ one_line_from fuel (skip_breaks s) (line_break out (skip_breaks s))
  | false ↦ one_line_from fuel s (out ++ x ∷ [])
]

unfoldable pub t_one_line : Bytes → Bytes
unfolding one_line_from
t_one_line s = one_line_from (length s) s []

abbrev pub is_id : Bytes → String → Bool
is_id id name = bytes_eq id (codes name)

-- The transforms that decode their input.
unfoldable pub apply_points : Locale → Bytes → List ℕ → Option Bytes
unfolding t_title t_sentence t_invert words_joined
apply_points c id xs =
    if is_id id "upper"
    then some (encode (map c.up xs))
    else if is_id id "lower"
    then some (encode (map c.low xs))
    else if is_id id "title"
    then some (encode (t_title c xs))
    else if is_id id "sentence"
    then some (encode (t_sentence c xs))
    else if is_id id "invert"
    then some (encode (t_invert c xs))
    else if is_id id "camel"
    then some (words_joined c true 0 xs)
    else if is_id id "snake"
    then some (words_joined c false b'_' xs)
    else if is_id id "slug"
    then some (words_joined c false b'-' xs)
    else none

-- `none` is the error "unknown transform".
unfoldable pub transform_apply : Locale → Bytes → Bytes → Bytes → Option Bytes
unfolding t_trim t_one_line apply_points
transform_apply c date id s =
    if is_id id "trim"
    then some (t_trim s)
    else if is_id id "one_line"
    then some (t_one_line s)
    else if is_id id "add_newline"
    then some (s ++ b'\n' ∷ [])
    else if is_id id "add_two_newlines"
    then some (s ++ b'\n' ∷ b'\n' ∷ [])
    else if is_id id "date"
    then some date
    else if is_id id "append_date"
    then some (s ++ b' ' ∷ date)
    else apply_points c id (decode s)
