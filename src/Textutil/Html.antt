-- ===== src/Textutil/Html.antt =====
-- `entity` and `html_to_text` of daemon/src/textutil.c. The position in the text is the list from there
-- on. `strtoul` is a parameter: the value, and what stands behind the number.
pub mod Ends
use clipnet.Base.{
  ℕ, zero, suc, Bool, true, false, ◌&&◌, ◌||◌, not, Option, none, some, List, [], ◌∷◌, ◌++◌, ◌==◌,
  if◌then◌else◌, length, drop, Bytes, codes, bytes_eq, is_alnum, starts_with, case_eq,
}
use clipnet.Util.Utf8.{put_utf8}

-- The name of an entity behind the `&`, up to a `;` among the first `n` + 1 bytes, and what follows it.
unfoldable pub entity_name : ℕ → Bytes → Option (Bytes × Bytes)
entity_name n [] = none
entity_name zero (c ∷ s) = if c == b';' then some ([], s) else none
entity_name (suc n) (c ∷ s) = elim (c == b';') [
  | true ↦ some ([], s)
  | false ↦ elim (entity_name n s) [ none ↦ none | some (name, rest) ↦ some (c ∷ name, rest) ]
]

pub record Named : Type 0 where
  pub name : Bytes
  pub cp : ℕ

abbrev pub named : List Named
named =
    record { name = codes "amp"; cp = b'&' }
    ∷ record { name = codes "lt"; cp = b'<' }
    ∷ record { name = codes "gt"; cp = b'>' }
    ∷ record { name = codes "quot"; cp = 34 }
    ∷ record { name = codes "apos"; cp = 39 }
    ∷ record { name = codes "nbsp"; cp = 0xA0 }
    ∷ record { name = codes "copy"; cp = 0xA9 }
    ∷ record { name = codes "reg"; cp = 0xAE }
    ∷ record { name = codes "hellip"; cp = 0x2026 }
    ∷ record { name = codes "mdash"; cp = 0x2014 }
    ∷ record { name = codes "ndash"; cp = 0x2013 }
    ∷ record { name = codes "lsquo"; cp = 0x2018 }
    ∷ record { name = codes "rsquo"; cp = 0x2019 }
    ∷ record { name = codes "ldquo"; cp = 0x201C }
    ∷ record { name = codes "rdquo"; cp = 0x201D }
    ∷ record { name = codes "bull"; cp = 0x2022 }
    ∷ record { name = codes "middot"; cp = 0xB7 }
    ∷ []

unfoldable pub find_named : Bytes → List Named → Option ℕ
find_named name [] = none
find_named name (e ∷ es) = if bytes_eq e.name name then some e.cp else find_named name es

abbrev pub block_tags : List Bytes
block_tags =
    codes "p"
    ∷ codes "div"
    ∷ codes "br"
    ∷ codes "li"
    ∷ codes "tr"
    ∷ codes "h1"
    ∷ codes "h2"
    ∷ codes "h3"
    ∷ codes "h4"
    ∷ codes "h5"
    ∷ codes "h6"
    ∷ codes "pre"
    ∷ codes "blockquote"
    ∷ codes "table"
    ∷ codes "ul"
    ∷ codes "ol"
    ∷ codes "hr"
    ∷ codes "section"
    ∷ codes "article"
    ∷ []

-- `tag_is`; the names in the calls are in lower case.
unfoldable pub tag_is : Bytes → Bytes → Bool
tag_is tag name = case_eq tag name

abbrev pub tag_among : Bytes → List Bytes → Bool
tag_among tag [] = false
tag_among tag (n ∷ ns) = tag_is tag n || tag_among tag ns

-- The letters and digits at the start, and what follows them.
unfoldable pub tag_name : Bytes → Bytes
tag_name [] = []
tag_name (c ∷ s) = if is_alnum c then c ∷ tag_name s else []

unfoldable pub behind_name : Bytes → Bytes
behind_name [] = []
behind_name (c ∷ s) = if is_alnum c then behind_name s else c ∷ s

-- Behind the first `>`, or the end.
unfoldable pub behind_gt : Bytes → Bytes
behind_gt [] = []
behind_gt (c ∷ s) = if c == b'>' then s else behind_gt s

abbrev pub comment_start : Bytes
comment_start = b'!' ∷ b'-' ∷ b'-' ∷ []

abbrev pub comment_end : Bytes
comment_end = b'-' ∷ b'-' ∷ b'>' ∷ []

-- Behind the first end of a comment, or the end.
unfoldable pub behind_comment : Bytes → Bytes
behind_comment [] = []
behind_comment (c ∷ s) = if starts_with comment_end (c ∷ s) then drop 2 s else behind_comment s

-- Is the last byte there, and none of a line break?
abbrev pub open_line : Bytes → Bool
open_line [] = false
open_line (c ∷ []) = not (c == b'\n')
open_line (c ∷ d ∷ s) = open_line (d ∷ s)

-- What a tag outside of skipped text appends.
unfoldable pub tag_break : Bool → Bytes → Bytes → Bytes
unfolding tag_is
tag_break closing name out =
    let b = if tag_among name block_tags && open_line out then out ++ b'\n' ∷ [] else out in
    if (tag_is name (codes "td") || tag_is name (codes "th")) && not closing && open_line b
    then b ++ b'\t' ∷ []
    else b

-- The element whose text is skipped, behind a tag.
unfoldable pub tag_skip : Bool → Bytes → Option Bytes → Option Bytes
unfolding tag_is
tag_skip closing name (some until) = if closing && tag_is name until then none else some until
tag_skip closing name none =
    if not closing && tag_is name (codes "script")
    then some (codes "script")
    else if not closing && tag_is name (codes "style")
    then some (codes "style")
    else none

pub record HtmlState : Type 0 where
  pub rest : Bytes
  pub skip : Option Bytes
  pub out : Bytes

-- The round at a `<`, behind which `s` stands.
unfoldable pub html_tag : Bytes → Option Bytes → Bytes → HtmlState
unfolding tag_name behind_name behind_gt behind_comment tag_break tag_skip
html_tag s skip out =
    let closing = starts_with (codes "/") s in
    let t = if closing then drop 1 s else s in
    let name = tag_name t in
    if starts_with comment_start s
    then record { rest = behind_comment (drop 3 s); skip = skip; out = out }
    else record {
      rest = behind_gt (behind_name t);
      skip = tag_skip closing name skip;
      out = elim skip [ none ↦ tag_break closing name out | some until ↦ out ];
    }

unfoldable pub is_blank_end : ℕ → Bool
is_blank_end c = c == b'\n' || c == b' ' || c == b'\t'

-- The last loop.
unfoldable pub trim_blank_end : Bytes → Bytes
unfolding is_blank_end
trim_blank_end [] = []
trim_blank_end (c ∷ s) = elim (trim_blank_end s) [
  | [] ↦ if is_blank_end c then [] else c ∷ []
  | d ∷ t ↦ c ∷ d ∷ t
]

module _ (strtoul : ℕ → Bytes → ℕ × Bytes) where
  -- A number that is read to its end.
  abbrev pub whole_number : ℕ × Bytes → Option ℕ
  whole_number (n, []) = some n
  whole_number (n, c ∷ s) = none

  unfoldable pub entity_number : Bytes → Option ℕ
  entity_number [] = none
  entity_number (c ∷ s) =
      whole_number (if c == b'x' || c == b'X' then strtoul 16 s else strtoul 10 (c ∷ s))

  unfoldable pub entity_code : Bytes → Option ℕ
  unfolding entity_number find_named
  entity_code [] = find_named [] named
  entity_code (c ∷ name) = if c == b'#' then entity_number name else find_named (c ∷ name) named

  unfoldable pub entity_text : Bytes → Bytes → Option (Bytes × Bytes)
  unfolding entity_code put_utf8
  entity_text name rest = elim (entity_code name) [
    | none ↦ none
    | some cp ↦ some (put_utf8 cp, rest)
  ]

  -- The text of the entity behind an `&`, and what follows it; `none` is the result 0.
  unfoldable pub entity : Bytes → Option (Bytes × Bytes)
  unfolding entity_name entity_text
  entity s = elim (entity_name 11 s) [ none ↦ none | some (name, rest) ↦ entity_text name rest ]

  -- A round at the byte `c`.
  unfoldable pub html_round : ℕ → Bytes → Option Bytes → Bytes → HtmlState
  unfolding html_tag entity
  html_round c s skip out = elim (c == b'<') [
    | true ↦ html_tag s skip out
    | false ↦ elim skip [
      | some until ↦ record { rest = s; skip = some until; out = out }
      | none ↦ elim (if c == b'&' then entity s else none) [
        | none ↦ record { rest = s; skip = none; out = out ++ c ∷ [] }
        | some (text, rest) ↦ record { rest = rest; skip = none; out = out ++ text }
      ]
    ]
  ]

  -- The loop; `none` where the fuel does not last.
  unfoldable pub html_loop : ℕ → Bytes → Option Bytes → Bytes → Option Bytes
  unfolding html_round
  html_loop fuel [] skip out = some out
  html_loop zero (c ∷ s) skip out = none
  html_loop (suc fuel) (c ∷ s) skip out =
      let st = html_round c s skip out in html_loop fuel st.rest st.skip st.out

  unfoldable pub html_to_text : Bytes → Option Bytes
  unfolding html_loop trim_blank_end
  html_to_text s = elim (html_loop (length s) s none []) [
    | none ↦ none
    | some out ↦ some (trim_blank_end out)
  ]
