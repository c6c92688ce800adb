-- ===== src/Capture/Primary/Tests.antt =====
-- A line that is selected with the mouse.
use clipnet.Base.{◌≡◌, refl, true, none, some, List, [], ◌∷◌, length, codes}
use clipnet.Rules.{rules_excluded}
use clipnet.Mime.{text_rank, mime_plan_build}
use clipnet.Util.Utf8.{utf8_valid}
use clipnet.Resource.{fire}
use clipnet.Capture.{WlOffer}
use clipnet.Capture.Tests.{env}
use clipnet.Capture.Events.{ReadResult, chunk, end_of_file, interrupted}
use clipnet.Capture.Primary.{
  Primary, primary_new, primary_store, on_primary_readable, on_primary_settled, capture_on_primary,
}
use clipnet.Capture.Primary.Phase.{IsReady}
use clipnet.Capture.Primary.Steps.{
  PrimaryReach-IsReady, selected, settled, readable, here, then_step,
}

abbrev line : WlOffer
line = record { id = 3; mimes = codes "UTF8_STRING" ∷ [] }

abbrev selected_line : Primary
selected_line = capture_on_primary env true (some line) primary_new

abbrev reading_line : Primary
reading_line = on_primary_settled env (record selected_line { timer = fire selected_line.timer })

abbrev events : List ReadResult
events = chunk (codes "ab") ∷ interrupted ∷ chunk (codes "c") ∷ end_of_file ∷ []

abbrev stored_line : Primary
stored_line = on_primary_readable env events reading_line

runs :
    (selected_line.timer.due ≡ some 760)
    × (selected_line.fd ≡ none)
    × (reading_line.watch ≡ some 5)
    × (length stored_line.out ≡ 3)
unfolding capture_on_primary on_primary_settled on_primary_readable mime_plan_build text_rank
    primary_store utf8_valid fire rules_excluded
runs = (refl, refl, refl, refl)

PrimaryReach-IsReady_example : IsReady stored_line
PrimaryReach-IsReady_example = PrimaryReach-IsReady {p = stored_line} (
    then_step
      (then_step (then_step here (selected env true (some line))) (settled env 760 runs.0 runs.1))
      (readable env events 5 runs.2))
