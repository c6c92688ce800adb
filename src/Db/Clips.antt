-- ===== src/Db/Clips.antt =====
-- daemon/src/blob.c and the clips of daemon/src/db.c. A clip's row holds its rows of `clip_formats`, in the
-- order of `ord`; `sticky` is whether `sticky_order` is set. `blobs` is the blob directory without the
-- temporary files of interrupted writes. The file system refuses to write or does all of it; SQLite does
-- not fail but for the constraints, and a transaction that fails leaves the rows as they were.
pub mod Content
pub mod Derive
pub mod Readable
pub mod Blobs
pub mod Hash
pub mod Twice
pub mod Change
pub mod Edit
pub mod Retention
pub mod Steps
pub mod Tests
use clipnet.Base.{
  ℕ, ◌*◌, Bool, true, false, ◌&&◌, ◌||◌, not, Option, none, some, List, [], ◌∷◌, ◌++◌, ltb, ◌==◌,
  if◌then◌else◌, length, take, Bytes, bytes_eq, mem,
}
use clipnet.Util.Base64.{hex_encode}
use clipnet.Sha256.{sha256}
use clipnet.Mime.{ClipKind, mime_is_image}

abbrev pub inline_max : ℕ
inline_max = 64 * 1024

-- What the daemon takes from other libraries. `decimal n` is `%u` of a number and `one_decimal n d` is
-- `%.1f` of a quotient. `print_names` is cJSON_PrintUnformatted of an array of strings, and `parse_names`
-- the strings of the array that cJSON_Parse makes of a text, or none where it makes none.
pub record Libc : Type 0 where
  pub strtoul : ℕ → Bytes → ℕ × Bytes
  pub decimal : ℕ → Bytes
  pub one_decimal : ℕ → ℕ → Bytes
  pub print_names : List Bytes → Bytes
  pub parse_names : Bytes → Option (List Bytes)

pub record FmtIn : Type 0 where
  pub mime : Bytes
  pub bytes : Bytes
  pub aliases : List Bytes

-- 0 stands for a time or a group that is not given.
pub record ClipIn : Type 0 where
  pub fmts : List FmtIn
  pub source_app : Option Bytes
  pub source_title : Option Bytes
  pub created_at : ℕ
  pub last_used_at : ℕ
  pub uuid : Option Bytes
  pub title : Option Bytes
  pub group_id : ℕ

-- `text_is_html` is CLIP_FLAG_TEXT_IS_HTML.
pub record Derived : Type 0 where
  pub kind : ClipKind
  pub plain : Option Bytes
  pub preview : Bytes
  pub text_is_html : Bool

-- `aliases` is the text of a JSON array, or NULL.
pub record FormatRow : Type 0 where
  pub mime : Bytes
  pub raw_name : Bytes
  pub aliases : Option Bytes
  pub size : ℕ
  pub hash : Bytes
  pub bytes : Option Bytes
  pub blob : Option Bytes

pub record Clip : Type 0 where
  pub id : ℕ
  pub uuid : Bytes
  pub created_at : ℕ
  pub last_used_at : ℕ
  pub paste_count : ℕ
  pub title : Option Bytes
  pub derived : Derived
  pub content_hash : Bytes
  pub total_size : ℕ
  pub source_app : Option Bytes
  pub source_title : Option Bytes
  pub group_id : ℕ
  pub sticky : Bool
  pub locked : Bool
  pub quick_paste : Option Bytes
  pub formats : List FormatRow

pub record Blob : Type 0 where
  pub name : Bytes
  pub content : Bytes

pub record Store : Type 0 where
  pub clips : List Clip
  pub blobs : List Blob

-- What the system answers: the time, a new UUID, whether a file can be written, whether there is a group.
pub record StoreEnv : Type 0 where
  pub now : ℕ
  pub uuid_v4 : Bytes
  pub writes : Bytes → Bool
  pub has_group : ℕ → Bool

unfoldable pub blob_name : Bytes → Bytes
unfolding hex_encode
blob_name hash = take 2 (hex_encode hash) ++ b'/' ∷ hex_encode hash

abbrev pub file_of : Bytes → List Blob → Option Bytes
file_of n [] = none
file_of n (b ∷ bs) = if bytes_eq b.name n then some b.content else file_of n bs

-- unlink.
abbrev pub blob_unlink : Bytes → List Blob → List Blob
blob_unlink n [] = []
blob_unlink n (b ∷ bs) =
    let others = blob_unlink n bs in if bytes_eq b.name n then others else b ∷ others

abbrev pub has_size : ℕ → Option Bytes → Bool
has_size n none = false
has_size n (some content) = length content == n

-- Whether the call succeeds, and the directory after it.
unfoldable pub blob_put : StoreEnv → Bytes → Bytes → List Blob → Bool × List Blob
blob_put env name content bs =
    if has_size (length content) (file_of name bs)
    then (true, bs)
    else if env.writes name
    then (true, record { name = name; content = content } ∷ blob_unlink name bs)
    else (false, bs)

abbrev pub first_or : Bytes → List Bytes → Bytes
first_or m [] = m
first_or m (a ∷ others) = a

abbrev pub as_blob : FmtIn → Bool
as_blob f = mime_is_image f.mime || ltb inline_max (length f.bytes)

-- `aliases_json`.
abbrev pub aliases_json : Libc → List Bytes → Option Bytes
aliases_json libc [] = none
aliases_json libc (a ∷ others) = some (libc.print_names (a ∷ others))

abbrev pub format_row : Libc → FmtIn → FormatRow
format_row libc f = record {
  mime = f.mime;
  raw_name = first_or f.mime f.aliases;
  aliases = aliases_json libc f.aliases;
  size = length f.bytes;
  hash = sha256 f.bytes;
  bytes = if as_blob f then none else some f.bytes;
  blob = if as_blob f then some (blob_name (sha256 f.bytes)) else none;
}

-- The rows of all formats of a clip.
abbrev pub format_rows : Libc → List FmtIn → List FormatRow
format_rows libc [] = []
format_rows libc (f ∷ fs) = format_row libc f ∷ format_rows libc fs

abbrev pub with_row : Libc → FmtIn → Option (List FormatRow) → Option (List FormatRow)
with_row libc f none = none
with_row libc f (some rows) = some (format_row libc f ∷ rows)

-- The rounds of `dbi_insert_formats` behind those for the names `used`: a second row of a name violates the
-- primary key.
unfoldable pub insert_from :
    Libc → StoreEnv → List Bytes → List FmtIn → List Blob → Option (List FormatRow) × List Blob
unfolding blob_put
insert_from libc env used [] bs = (some [], bs)
insert_from libc env used (f ∷ fs) bs =
    let put =
      if as_blob f then blob_put env (blob_name (sha256 f.bytes)) f.bytes bs else (true, bs) in
    let later = insert_from libc env (f.mime ∷ used) fs put.1 in
    if put.0 && not (mem f.mime used) then (with_row libc f later.0, later.1) else (none, put.1)

-- The new rows, or none when a blob cannot be written or a row cannot be inserted.
unfoldable pub dbi_insert_formats :
    Libc → StoreEnv → List FmtIn → List Blob → Option (List FormatRow) × List Blob
unfolding insert_from
dbi_insert_formats libc env fs bs = insert_from libc env [] fs bs

abbrev pub has_blob : Bytes → List FormatRow → Bool
has_blob n [] = false
has_blob n (r ∷ rs) = (elim r.blob [ none ↦ false | some b ↦ bytes_eq b n ]) || has_blob n rs

unfoldable pub dbi_blob_referenced : List Clip → Bytes → Bool
dbi_blob_referenced [] n = false
dbi_blob_referenced (c ∷ cs) n = has_blob n c.formats || dbi_blob_referenced cs n

abbrev pub collect : List Clip → List Blob → List Blob
collect cs [] = []
collect cs (b ∷ bs) =
    let others = collect cs bs in if dbi_blob_referenced cs b.name then b ∷ others else others

-- Every blob that no row names any more is unlinked.
unfoldable pub db_blob_gc : Store → Store
unfolding dbi_blob_referenced
db_blob_gc s = record s { blobs = collect s.clips s.blobs }

-- `format_bytes`: the bytes of a format; none when its blob is missing.
unfoldable pub format_bytes : List Blob → FormatRow → Option Bytes
format_bytes bs r = elim r.blob [ some n ↦ file_of n bs | none ↦ r.bytes ]

abbrev pub find_clip : ℕ → List Clip → Option Clip
find_clip i [] = none
find_clip i (c ∷ cs) = if c.id == i then some c else find_clip i cs

-- What is read of the column `aliases`: nothing of a text that is no array.
abbrev pub aliases_of : Libc → Option Bytes → List Bytes
aliases_of libc none = []
aliases_of libc (some text) = elim (libc.parse_names text) [ none ↦ [] | some names ↦ names ]

unfoldable pub load_formats : Libc → List Blob → List FormatRow → Option (List FmtIn)
unfolding format_bytes
load_formats libc bs [] = some []
load_formats libc bs (r ∷ rs) = elim (format_bytes bs r) [
  | none ↦ none
  | some d ↦ elim (load_formats libc bs rs) [
    | none ↦ none
    | some fs ↦ some (record { mime = r.mime; bytes = d; aliases = aliases_of libc r.aliases } ∷ fs)
  ]
]

-- The formats that are offered on the clipboard; none is the result -1.
unfoldable pub db_load_payload : Libc → Store → ℕ → Option (List FmtIn)
unfolding load_formats
db_load_payload libc s i = elim (find_clip i s.clips) [
  | none ↦ none
  | some c ↦ elim (load_formats libc s.blobs c.formats) [
    | none ↦ none
    | some [] ↦ none
    | some (f ∷ fs) ↦ some (f ∷ fs)
  ]
]
