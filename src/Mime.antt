-- ===== src/Mime.antt =====
-- daemon/src/mime.c: which offered types to read, under which name to store them, and what kind of clip
-- they make. A name is the list of its bytes; an array with a counter is a list.
pub mod Reads
pub mod Offered
pub mod Text
pub mod Kind
pub mod Tests
use clipnet.Base.{
  ℕ, Bool, true, false, ◌&&◌, ◌||◌, not, Option, none, some, List, [], ◌∷◌, ◌++◌, map, ltb,
  if◌then◌else◌, length, Bytes, codes, bytes_eq, starts_with, case_eq, mem,
}

abbrev pub mime_text : Bytes
mime_text = codes "text/plain;charset=utf-8"

abbrev pub mime_marker : Bytes
mime_marker = codes "application/x-clipnet-clip"

abbrev pub mime_password_hint : Bytes
mime_password_hint = codes "x-kde-passwordManagerHint"

abbrev pub mime_html : Bytes
mime_html = codes "text/html"

abbrev pub mime_uri_list : Bytes
mime_uri_list = codes "text/uri-list"

abbrev pub mime_png : Bytes
mime_png = codes "image/png"

unfoldable pub text_default_aliases : List Bytes
text_default_aliases =
    mime_text ∷ codes "text/plain" ∷ codes "UTF8_STRING" ∷ codes "STRING" ∷ codes "TEXT" ∷ []

pub data ClipKind : Type 0 where
  kind_text kind_rich kind_image kind_files kind_other : ClipKind

unfoldable pub kind_name : ClipKind → Bytes
kind_name kind_text = codes "text"
kind_name kind_rich = codes "rich"
kind_name kind_image = codes "image"
kind_name kind_files = codes "files"
kind_name kind_other = codes "other"

-- `none` is the result -1: not a text alias.
unfoldable pub text_rank : Bytes → Option ℕ
text_rank m =
    if case_eq m mime_text || case_eq m (codes "text/plain; charset=utf-8")
    then some 0
    else if bytes_eq m (codes "UTF8_STRING")
    then some 1
    else if bytes_eq m (codes "text/plain")
    then some 2
    else if bytes_eq m (codes "STRING")
    then some 3
    else if bytes_eq m (codes "TEXT")
    then some 4
    else none

unfoldable pub mime_is_text_alias : Bytes → Bool
mime_is_text_alias m = elim (text_rank m) [ none ↦ false | some r ↦ true ]

unfoldable pub mime_is_image : Bytes → Bool
mime_is_image m = starts_with (codes "image/") m

abbrev pub ignored : List Bytes
ignored =
    codes "TARGETS"
    ∷ codes "MULTIPLE"
    ∷ codes "TIMESTAMP"
    ∷ codes "SAVE_TARGETS"
    ∷ codes "DELETE"
    ∷ codes "INCR"
    ∷ mime_marker
    ∷ mime_password_hint
    ∷ []

unfoldable pub mime_is_ignored : Bytes → Bool
mime_is_ignored m = mem m ignored

pub record Read : Type 0 where
  pub offered : Bytes
  pub canonical : Bytes

pub record Plan : Type 0 where
  pub reads : List Read
  pub text_aliases : List Bytes
  pub is_ours : Bool
  pub is_sensitive : Bool

abbrev pub canonicals : List Read → List Bytes
canonicals = map λ r. r.canonical

unfoldable pub seen : List Read → Bytes → Bool
seen reads canonical = mem canonical (canonicals reads)

-- The variables of the first loop of `mime_plan_build`.
pub record Scan : Type 0 where
  pub aliases : List Bytes
  pub best_text : Option Bytes
  pub best_rank : ℕ
  pub has_png : Bool
  pub ours : Bool
  pub sensitive : Bool

abbrev pub scan_start : Scan
scan_start = record {
  aliases = [];
  best_text = none;
  best_rank = 99;
  has_png = false;
  ours = false;
  sensitive = false;
}

unfoldable pub add_alias : Bytes → List Bytes → List Bytes
add_alias m aliases =
    if mem m aliases
    then aliases
    else if ltb (length aliases) 16
    then aliases ++ m ∷ []
    else aliases

-- The branch `r >= 0`.
unfoldable pub scan_alias : Scan → Bytes → ℕ → Scan
unfolding add_alias
scan_alias st m r = record st {
  aliases = add_alias m st.aliases;
  best_text = if ltb r st.best_rank then some m else st.best_text;
  best_rank = if ltb r st.best_rank then r else st.best_rank;
}

-- The three tests on every name.
unfoldable pub scan_flags : Scan → Bytes → Scan
scan_flags st m = record st {
  ours = st.ours || bytes_eq m mime_marker;
  sensitive = st.sensitive || bytes_eq m mime_password_hint;
  has_png = st.has_png || bytes_eq m mime_png;
}

unfoldable pub scan_offer : Scan → Bytes → Scan
unfolding scan_alias scan_flags
scan_offer st m = elim (text_rank m) [
  | none ↦ scan_flags st m
  | some r ↦ scan_alias (scan_flags st m) m r
]

unfoldable pub scan_offers : Scan → List Bytes → Scan
unfolding scan_offer
scan_offers st [] = st
scan_offers st (m ∷ ms) = scan_offers (scan_offer st m) ms

-- The two `continue`s on the name itself.
unfoldable pub skipped : Bool → Bytes → Bool
unfolding mime_is_ignored mime_is_text_alias mime_is_image
skipped png m =
    mime_is_ignored m
    || mime_is_text_alias m
    || (png
        && mime_is_image m
        && not (bytes_eq m mime_png)
        && not (bytes_eq m (codes "image/svg+xml")))

-- One round of the second loop.
unfoldable pub plan_visit : Bool → List Read → Bytes → List Read
unfolding skipped seen
plan_visit png reads m =
    if skipped png m || seen reads m
    then reads
    else reads ++ record { offered = m; canonical = m } ∷ []

-- The second loop; `reads` holds 32 at most.
unfoldable pub plan_loop : Bool → List Read → List Bytes → List Read
unfolding plan_visit
plan_loop png reads [] = reads
plan_loop png reads (m ∷ ms) = elim (ltb (length reads) 32) [
  | false ↦ reads
  | true ↦ plan_loop png (plan_visit png reads m) ms
]

abbrev pub text_read : Option Bytes → List Read
text_read none = []
text_read (some m) = record { offered = m; canonical = mime_text } ∷ []

unfoldable pub mime_plan_build : List Bytes → Plan
unfolding scan_offers plan_loop
mime_plan_build offered =
    let st = scan_offers scan_start offered in
    record {
      reads = plan_loop st.has_png (text_read st.best_text) offered;
      text_aliases = st.aliases;
      is_ours = st.ours;
      is_sensitive = st.sensitive;
    }

-- The four flags of `mime_classify`.
pub record Flags : Type 0 where
  pub text : Bool
  pub rich : Bool
  pub image : Bool
  pub files : Bool

-- The tests of `mime_classify` on one name.
unfoldable pub is_rich : Bytes → Bool
is_rich m =
    bytes_eq m mime_html || bytes_eq m (codes "text/rtf") || bytes_eq m (codes "application/rtf")

unfoldable pub is_files : Bytes → Bool
is_files m = bytes_eq m mime_uri_list || bytes_eq m (codes "x-special/gnome-copied-files")

unfoldable pub classify_one : Flags → Bytes → Flags
classify_one f m =
    if bytes_eq m mime_text
    then record f { text = true }
    else if is_rich m
    then record f { rich = true }
    else if mime_is_image m
    then record f { image = true }
    else if is_files m
    then record f { files = true }
    else f

unfoldable pub classify_loop : Flags → List Bytes → Flags
unfolding classify_one
classify_loop f [] = f
classify_loop f (m ∷ ms) = classify_loop (classify_one f m) ms

unfoldable pub classify_pick : Flags → ClipKind
classify_pick f =
    if f.files
    then kind_files
    else if f.image
    then kind_image
    else if f.rich
    then kind_rich
    else if f.text
    then kind_text
    else kind_other

unfoldable pub mime_classify : List Bytes → ClipKind
unfolding classify_loop classify_pick
mime_classify ms =
    classify_pick
      (classify_loop (record { text = false; rich = false; image = false; files = false }) ms)
