-- ===== src/Paste/Tests.antt =====
-- Three clips pasted as one text; the second has none, the first is empty.
use clipnet.Base.{
  ℕ, ◌≡◌, refl, true, Option, none, some, [], ◌∷◌, ◌==◌, if◌then◌else◌, length, Bytes, codes,
}
use clipnet.Transform.{Locale, transform_apply}
use clipnet.Paste.{
  PasteReq, PasteEnv, join_texts, choose, paste_run, serve_all, put_text, needs_clip,
  unknown_transform, chosen,
}
use clipnet.Paste.Join.{present, without_leading_empty, separated, join_texts_lem}
use clipnet.Paste.Outcome.{Outcome}

abbrev texts : ℕ → Option Bytes
texts i = if i == 2 then none else if i == 1 then some [] else some (codes "ab")

abbrev ascii : Locale
ascii = record {
  up = λ x. x;
  low = λ x. x;
  alpha = λ x. true;
  alnum = λ x. true;
  space = λ x. x == 32;
}

abbrev env : PasteEnv
env = record {
  wl = true;
  hypr = true;
  active_class = none;
  exists = λ id. true;
  clip_text = texts;
  multi_separator = codes ", ";
  move_to_top = true;
  on_paste = none;
  locale = ascii;
  date = codes "today";
  serves = λ x. true;
  rules = [];
  member = λ key text. none;
  sends = λ keys. true;
}

abbrev three : PasteReq
three = record {
  ids = 1 ∷ 2 ∷ 3 ∷ 4 ∷ [];
  mode = serve_all;
  separator = none;
  text = none;
  transform = none;
  send_keys = true;
}

runs :
    ((paste_run env three).1 ≡ none)
    × (length (paste_run env three).0 ≡ 10)
    × (choose env three ≡ chosen (put_text (codes "ab, ab") 0))
    × ((paste_run env (record three { ids = []; text = some []; transform = some [] })).1
        ≡ some needs_clip)
    × ((paste_run env (record three { transform = some (codes "none") })).1
        ≡ some unknown_transform)
unfolding paste_run transform_apply
runs = (refl, refl, refl, refl, refl)

join_texts_lem_example :
    join_texts env three
    ≡ separated (codes ", ") (without_leading_empty (present texts (1 ∷ 2 ∷ 3 ∷ 4 ∷ [])))
join_texts_lem_example = join_texts_lem env three
