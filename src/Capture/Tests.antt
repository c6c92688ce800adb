-- ===== src/Capture/Tests.antt =====
-- A selection with a text and a picture, in a capture that reads them.
use clipnet.Base.{
  ◌+◌, ◌≤◌, ◌≡◌, refl, true, false, none, some, List, [], ◌∷◌, arith, length, codes, bytes_eq, mem,
}
use clipnet.Util.Utf8.{utf8_valid}
use clipnet.Rules.{Rule, rules_excluded, rules_filter_plan}
use clipnet.Rules.Filter.{rules_filter_plan_bound}
use clipnet.Mime.{mime_password_hint, text_rank, mime_plan_build}
use clipnet.Resource.{idle_slot, fire}
use clipnet.Capture.{
  WlOffer, Env, Capture, capture_new, capture_set_current_clip, add_new, abort_current, finish,
}
use clipnet.Capture.Events.{on_readable, on_debounced, capture_on_selection, chunk, end_of_file}
use clipnet.Capture.Phase.{holdings, IsReady}
use clipnet.Capture.Selection.{IsFair}
use clipnet.Capture.Steps.{
  Reach, Reach-IsReady, debounced, readable, made_current, selected, other, here, then_step,
}
use clipnet.Capture.Store.{clips, secret_not_stored, no_more, and_then_quiet}
use clipnet.Capture.Progress.{time_outs, time_outs_end}

-- The rules, with equality in the place of the patterns of `fnmatch`.
abbrev pub table : List Rule
table =
    record {
      id = 1;
      enabled = true;
      action = codes "skip_mime";
      match_app = some (codes "foot");
      match_mime = some (codes "text/html");
      arg = none;
    }
    ∷ []

abbrev pub env : Env
env = record {
  started = 40;
  checked = 50;
  armed = 60;
  hooked = 70;
  wl = true;
  keep_alive = true;
  keep_title = true;
  paused = false;
  app_class = some (codes "foot");
  app_title = none;
  excluded = rules_excluded bytes_eq table;
  filter_plan = rules_filter_plan bytes_eq table;
  text_cap = 8;
  image_cap = 2;
  other_cap = 0;
  pipe = some 5;
  add_fd = true;
  scripts = none;
  route_group = λ app. 0;
  ensure_group = λ path. none;
  add_clip = λ clip. add_new 12;
  hook_serves = λ id. none;
  serves = λ id. true;
  serve_current = 0;
  exists = λ id. true;
}

env-IsFair : IsFair env
unfolding IsFair
env-IsFair app plan = rules_filter_plan_bound bytes_eq table app plan

abbrev shot : WlOffer
shot = record { id = 3; mimes = codes "image/png" ∷ codes "text/html" ∷ codes "UTF8_STRING" ∷ [] }

abbrev vault : WlOffer
vault = record { id = 4; mimes = codes "UTF8_STRING" ∷ mime_password_hint ∷ [] }

abbrev selected_shot : Capture
selected_shot = capture_on_selection env (some shot) capture_new

abbrev reading_shot : Capture
reading_shot =
    on_debounced env (record selected_shot { debounce_timer = fire selected_shot.debounce_timer })

-- The first read comes in two chunks, the second is too large for a picture.
abbrev first_read : Capture
first_read = on_readable env (chunk (codes "a") ∷ chunk (codes "b") ∷ end_of_file ∷ []) reading_shot

abbrev stored_shot : Capture
stored_shot = on_readable env (chunk (codes "abc") ∷ []) first_read

runs :
    (selected_shot.debounce_timer.due ≡ some 90)
    × (reading_shot.watch ≡ some 5)
    × (first_read.next ≡ 1)
    × (first_read.watch ≡ some 5)
    × (stored_shot.current_clip ≡ 12)
    × (stored_shot.offer ≡ none)
    × (length (clips stored_shot.out) ≡ 1)
    × (reading_shot.debounce_timer ≡ idle_slot)
    × (length reading_shot.plan.reads ≡ 2)
    × (reading_shot.next ≡ 0)
unfolding capture_on_selection on_debounced on_readable clips mime_plan_build text_rank
    abort_current finish utf8_valid fire rules_excluded rules_filter_plan
runs = (refl, refl, refl, refl, refl, refl, refl, refl, refl, refl)

debounce_due : selected_shot.debounce_timer.due ≡ some 90
debounce_due = runs.0

watched : reading_shot.watch ≡ some 5
watched = runs.1

watched_again : first_read.watch ≡ some 5
watched_again = runs.3

to_reading : Reach capture_new reading_shot
to_reading =
    then_step (then_step here (selected env (some shot) env-IsFair))
      (other (debounced env 90 debounce_due))

to_stored : Reach capture_new stored_shot
to_stored =
    then_step
      (then_step to_reading
        (other (readable env (chunk (codes "a") ∷ chunk (codes "b") ∷ end_of_file ∷ []) 5 watched)))
      (other (readable env (chunk (codes "abc") ∷ []) 5 watched_again))

Reach-IsReady_example : IsReady (holdings stored_shot)
Reach-IsReady_example = Reach-IsReady {c = stored_shot} to_stored

reading_shot-IsReady : IsReady (holdings reading_shot)
reading_shot-IsReady = Reach-IsReady to_reading

stored_shot-IsReady : IsReady (holdings stored_shot)
stored_shot-IsReady = Reach-IsReady to_stored

vault_hint : mem mime_password_hint vault.mimes ≡ true
vault_hint = refl

secret_not_stored_example :
    clips (capture_set_current_clip 12 (capture_on_selection env (some vault) stored_shot)).out
    ≡ clips stored_shot.out
secret_not_stored_example =
    secret_not_stored env vault stored_shot
      (capture_set_current_clip 12 (capture_on_selection env (some vault) stored_shot)) env-IsFair
      stored_shot-IsReady vault_hint (and_then_quiet no_more (made_current 12))

settled : reading_shot.debounce_timer ≡ idle_slot
settled = runs.7

two_left : length reading_shot.plan.reads ≤ reading_shot.next + length (env ∷ env ∷ [])
two_left = omega (arith, runs.8, runs.9)

time_outs_end_example : (time_outs (env ∷ env ∷ []) reading_shot).offer ≡ none
time_outs_end_example =
    time_outs_end (env ∷ env ∷ []) reading_shot reading_shot-IsReady settled two_left
