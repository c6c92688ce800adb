-- ===== src/Serve/Tests.antt =====
-- A payload of text and a picture.
use clipnet.Base.{ℕ, ◌≡◌, refl, true, none, some, [], ◌∷◌, get_elem?, codes, mem}
use clipnet.Mime.{mime_text, mime_marker, mime_png, text_default_aliases}
use clipnet.Serve.{
  FmtOut, ClipPayload, names, own_names, own_offers, on_send, wrote, interrupted, start_writer,
  would_block, writable, hung_up,
}
use clipnet.Serve.Names.{GoesBy, on_send_offered}
use clipnet.Serve.Pump.{IsSplit, start_writer-IsSplit}

abbrev clip : ClipPayload
clip = record {
  uuid = codes "1234";
  fmts =
      record { mime = mime_png; aliases = []; content = 1 ∷ 2 ∷ [] }
      ∷ record { mime = mime_text; aliases = codes "TEXT" ∷ []; content = codes "hello" }
      ∷ [];
}

offers_run :
    own_offers clip
    ≡ mime_png
      ∷ mime_text
      ∷ codes "TEXT"
      ∷ codes "text/plain"
      ∷ codes "UTF8_STRING"
      ∷ codes "STRING"
      ∷ mime_marker
      ∷ []
unfolding own_offers text_default_aliases
offers_run = refl

sends_run :
    (on_send clip (codes "UTF8_STRING") ≡ some (codes "hello"))
    × (on_send clip mime_marker ≡ some (codes "1234"))
    × (on_send clip (codes "image/bmp") ≡ none)
unfolding on_send text_default_aliases
sends_run = (refl, refl, refl)

string_offered : mem (codes "STRING") (names (own_names clip)) ≡ true
unfolding own_names text_default_aliases
string_offered = refl

on_send_offered_example :
    (i : ℕ) × (f : FmtOut) × (get_elem? clip.fmts i ≡ some f)
    × (on_send clip (codes "STRING") ≡ some f.content)
    × GoesBy f (codes "STRING")
on_send_offered_example = on_send_offered clip (codes "STRING") refl string_offered

start_writer-IsSplit_example : IsSplit true (codes "hello") (
    start_writer
      (wrote 2 ∷ would_block ∷ [])
      (writable (interrupted ∷ wrote 1 ∷ []) ∷ hung_up ∷ [])
      (codes "hello"))
start_writer-IsSplit_example =
    start_writer-IsSplit (wrote 2 ∷ would_block ∷ [])
      (writable (interrupted ∷ wrote 1 ∷ []) ∷ hung_up ∷ []) (codes "hello")
