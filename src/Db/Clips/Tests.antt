-- ===== src/Db/Clips/Tests.antt =====
-- The clips of daemon/src/db.c on concrete stores.
use clipnet.Base.{
  ℕ, zero, suc, ◌≤◌, max, ◌≡◌, refl, ap, ◌∙◌, ◌≢◌, inl, inr, Bool, true, false, not, none, some,
  List, [], ◌∷◌, ◌++◌, arith, length, take, Bytes, codes,
}
use clipnet.Db.Clips.{
  FmtIn, ClipIn, Clip, Store, StoreEnv, blob_put, format_row, dbi_insert_formats, find_clip,
  db_load_payload, insert_from, format_rows, Libc,
}
use clipnet.Db.Clips.Change.{
  clip_ids, new_clip, insert_clip, add_tx, db_add_clip, add_new, add_dup, add_err, db_delete,
}
use clipnet.Db.Clips.Derive.{
  plain_text_max_chars, find_fmt, valid_text, derive_plain, dbi_derive, fmt_mimes,
}
use clipnet.Db.Clips.Readable.{characters, dbi_derive_lem}
use clipnet.Textutil.{
  uri_list_to_paths, from, uri_line, until, percent_decode, strip_scheme, from_slash,
}
use clipnet.Util.Utf8.{utf8_valid, encode, utf8_prefix}
use clipnet.Db.Clips.Hash.{swapped}
use clipnet.Db.Clips.Retention.{
  Settings, Holders, expendable, keep, drop_old, drop_large, recent, surplus, drop_surplus, ret_tx,
  db_retention,
}
use clipnet.Db.Clips.Retention.Bound.{db_retention-le}
use clipnet.Db.Clips.Retention.Safe.{DistinctClips, db_retention-find_clip, IsInvested}
use clipnet.Db.Clips.Steps.{apply, add, Action, run, delete}
use clipnet.Db.Clips.Steps.Payload.{db_load_payload-db_add_clip, db_load_payload-run}
use clipnet.Db.Clips.Twice.{db_add_clip-again}
use clipnet.Mime.{
  mime_text, mime_is_image, mime_uri_list, mime_classify, is_rich, classify_one, classify_loop,
  classify_pick, kind_files, is_files,
}

-- A stand-in for JSON arrays of strings: each byte one higher, and 0 behind each string.
print_name : Bytes → Bytes → Bytes
print_name [] s = 0 ∷ s
print_name (b ∷ name) s = suc b ∷ print_name name s

print_array : List Bytes → Bytes
print_array [] = []
print_array (name ∷ names) = print_name name (print_array names)

put_first : ℕ → List Bytes → List Bytes
put_first b [] = (b ∷ []) ∷ []
put_first b (name ∷ names) = (b ∷ name) ∷ names

parse_array : Bytes → List Bytes
parse_array [] = []
parse_array (zero ∷ s) = [] ∷ parse_array s
parse_array (suc b ∷ s) = put_first b (parse_array s)

parse_array-print_name : (name s : Bytes) → parse_array (print_name name s) ≡ name ∷ parse_array s
unfolding parse_array print_name put_first
parse_array-print_name [] s = refl
parse_array-print_name (b ∷ name) s = ap (put_first b) (parse_array-print_name name s)

parse_array-print_array : (names : List Bytes) → parse_array (print_array names) ≡ names
unfolding parse_array print_array
parse_array-print_array [] = refl
parse_array-print_array (name ∷ names) =
    parse_array-print_name name (print_array names)
    ∙ ap (λ (ns : List Bytes). name ∷ ns) (parse_array-print_array names)

abbrev no_libc : Libc
no_libc = record {
  strtoul = λ base s. (0, s);
  decimal = λ n. [];
  one_decimal = λ n d. [];
  print_names = print_array;
  parse_names = λ s. some (parse_array s);
}

no_libc_json : (names : List Bytes) → no_libc.parse_names (no_libc.print_names names) ≡ some names
no_libc_json names = ap (λ (ns : List Bytes). some ns) (parse_array-print_array names)

abbrev system : StoreEnv
system = record { now = 5; uuid_v4 = codes "u1"; writes = λ n. true; has_group = λ i. true }

abbrev later_system : StoreEnv
later_system = record { now = 9; uuid_v4 = codes "u2"; writes = λ n. true; has_group = λ i. true }

abbrev picture : FmtIn
picture = record {
  mime = codes "image/png";
  bytes = codes "PNG";
  aliases = codes "PNG" ∷ codes "x-png" ∷ [];
}

abbrev label : FmtIn
label = record { mime = mime_text; bytes = codes "hi"; aliases = [] }

abbrev clip_in : List FmtIn → ClipIn
clip_in fmts = record {
  fmts = fmts;
  source_app = none;
  source_title = none;
  created_at = 0;
  last_used_at = 0;
  uuid = none;
  title = none;
  group_id = 0;
}

abbrev empty_store : Store
empty_store = record { clips = []; blobs = [] }

abbrev picture_content : Bytes → Bytes
picture_content n = codes "PNG"

abbrev picture_actions : List Action
picture_actions = delete 7 ∷ add system (clip_in (picture ∷ [])) ∷ []

abbrev picture_clip : Clip
picture_clip = new_clip no_libc system (clip_in (picture ∷ [])) [] (format_row no_libc picture ∷ [])

picture_found : find_clip 1 (run no_libc picture_actions).clips ≡ some picture_clip
unfolding run apply db_delete db_add_clip add_tx insert_clip dbi_insert_formats insert_from blob_put
    mime_is_image
picture_found = refl

db_load_payload-run_example :
    (fmts : List FmtIn) × (db_load_payload no_libc (run no_libc picture_actions) 1 ≡ some fmts)
    × (picture_clip.formats ≡ format_rows no_libc fmts)
db_load_payload-run_example =
    db_load_payload-run no_libc no_libc_json picture_content picture_actions 1 picture_clip
      (tt, ((refl, tt), tt)) picture_found

picture_new : (db_add_clip no_libc system (clip_in (picture ∷ [])) empty_store).result ≡ add_new
unfolding db_add_clip add_tx insert_clip dbi_insert_formats insert_from blob_put mime_is_image
picture_new = refl

db_load_payload-db_add_clip_example :
    db_load_payload no_libc
      (db_add_clip no_libc system (clip_in (picture ∷ [])) empty_store).store
      (db_add_clip no_libc system (clip_in (picture ∷ [])) empty_store).id
    ≡ some (picture ∷ [])
db_load_payload-db_add_clip_example =
    db_load_payload-db_add_clip no_libc no_libc_json picture_content system (clip_in (picture ∷ []))
      empty_store tt (refl, tt) picture_new

two_new : (db_add_clip no_libc system (clip_in (picture ∷ label ∷ [])) empty_store).result ≡ add_new
unfolding db_add_clip add_tx insert_clip dbi_insert_formats insert_from blob_put mime_is_image
two_new = refl

db_add_clip-again_example :
    let first = db_add_clip no_libc system (clip_in (picture ∷ label ∷ [])) empty_store in
    let again = db_add_clip no_libc later_system (clip_in (label ∷ picture ∷ [])) first.store in
    (again.result ≡ add_dup)
    × ((again.id ≡ first.id) × (length again.store.clips ≡ length first.store.clips))
db_add_clip-again_example =
    db_add_clip-again no_libc system later_system (clip_in (picture ∷ label ∷ []))
      (clip_in (label ∷ picture ∷ [])) empty_store (omega arith) (swapped refl) two_new

-- Four clips, of which the first is locked.
abbrev stored : ℕ → Bool → Clip
stored i locked = record (new_clip no_libc system (clip_in (label ∷ [])) [] []) {
  id = i;
  uuid = codes "u" ++ i ∷ [];
  last_used_at = i;
  locked = locked;
}

abbrev full : Store
full = record {
  clips = stored 1 true ∷ stored 2 false ∷ stored 3 false ∷ stored 4 false ∷ [];
  blobs = [];
}

abbrev two_most : Settings
two_most = record { max_age_days = 0; large_bytes = 0; large_age_days = 0; max_clips = 2 }

abbrev unheld : Holders
unheld = record { buffered = λ i. false; hotkeyed = λ u. false }

-- The locked clip stays and takes one of the two places; the newest other clip has the other.
newest_stay : clip_ids (ret_tx unheld two_most 100 full.clips) ≡ 1 ∷ 4 ∷ []
unfolding ret_tx drop_old drop_large drop_surplus surplus recent
newest_stay = refl

db_retention-le_example :
    length (db_retention unheld two_most 100 full).1.clips
    ≤ max 2 (length (keep (λ c. not (expendable unheld c)) full.clips))
db_retention-le_example = db_retention-le unheld two_most 100 full (omega arith)

full-DistinctClips : DistinctClips full.clips
full-DistinctClips = (refl, (refl, (refl, (refl, tt))))

db_retention-find_clip_example :
    find_clip 1 (db_retention unheld two_most 100 full).1.clips ≡ some (stored 1 true)
db_retention-find_clip_example =
    db_retention-find_clip unheld two_most 100 1 (stored 1 true) full
      (unfold IsInvested in inr (inl refl)) full-DistinctClips refl

-- A name that stands twice violates the primary key of the formats.
twice_refused :
    (db_add_clip no_libc system (clip_in (label ∷ label ∷ [])) empty_store).result ≡ add_err
unfolding db_add_clip add_tx insert_clip dbi_insert_formats insert_from blob_put mime_is_image
twice_refused = refl

-- é in Latin-1, which is no UTF-8.
abbrev accented : FmtIn
accented = record { mime = mime_text; bytes = 0xE9 ∷ []; aliases = [] }

accented_kind : mime_classify (fmt_mimes (accented ∷ [])) ≢ kind_files
unfolding mime_classify classify_loop classify_one classify_pick is_rich
accented_kind = λ e. absurd cc

dbi_derive_lem_example :
    ((dbi_derive no_libc (accented ∷ [])).plain
      ≡ some (encode (take plain_text_max_chars (characters (0xE9 ∷ [])))))
    × ((dbi_derive no_libc (accented ∷ [])).text_is_html ≡ false)
    × ((dbi_derive no_libc (accented ∷ [])).preview ≢ [])
unfolding find_fmt
dbi_derive_lem_example =
    dbi_derive_lem no_libc (accented ∷ []) accented refl accented_kind refl (omega arith, tt)
      (omega arith, tt)

-- The paths of a list of files are decoded behind the test for UTF-8.
abbrev file_list : FmtIn
file_list = record { mime = mime_uri_list; bytes = codes "file:///%FF"; aliases = [] }

path_not_utf8 :
    (derive_plain no_libc (file_list ∷ []) ≡ some (b'/' ∷ 0xFF ∷ []))
    × (utf8_valid (b'/' ∷ 0xFF ∷ []) ≡ false)
unfolding derive_plain mime_classify find_fmt uri_list_to_paths valid_text utf8_valid utf8_prefix
    is_rich mime_is_image is_files from uri_line until percent_decode strip_scheme from_slash
path_not_utf8 = (refl, refl)
