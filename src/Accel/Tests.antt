-- ===== src/Accel/Tests.antt =====
-- The reader and the writer of shortcuts at concrete ones.
use clipnet.Base.{◌≡◌, refl, true, some, codes}
use clipnet.Accel.{
  Accel, named, is_fkey, print_fkey, single, canon_key, accel_keysym, mod_bit, tokens,
  check_binding, parse_key, parse_tokens, parse, accel_parse, accel_parse_send, accel_format,
  accel_to_hypr, accel_hypr_mods, unsupported_key, shift_alone, ok, err,
}
use clipnet.Accel.Canonical.{canonical_keys, IsCanonical}
use clipnet.Accel.RoundTrip.{accel_parse-accel_format}
use clipnet.Accel.Sound.{parse-IsCanonical}

abbrev paste : Accel
paste = record { mods = 69; key = codes "V" }

paste-IsCanonical : IsCanonical paste
unfolding canonical_keys
paste-IsCanonical = record { known_mods = refl; known_key = refl }

accepted : parse (some (codes " shift + Win+control+v")) true ≡ ok paste
unfolding accel_parse
accepted =
    unfold parse parse_tokens parse_key tokens mod_bit canon_key check_binding single is_fkey
      print_fkey named in
    refl

refused :
    (accel_parse (some (codes "Shift+V")) ≡ err shift_alone)
    × (accel_parse (some (codes "Ctrl+F25")) ≡ err unsupported_key)
    × (accel_parse (some (codes "Shift+F1")) ≡ ok (record { mods = 1; key = codes "F1" }))
unfolding accel_parse
refused = (refl, refl, refl)

hypr_spelling :
    (accel_to_hypr paste ≡ codes "SUPER + CTRL + SHIFT + V")
    × (accel_hypr_mods paste ≡ codes "SUPER CTRL SHIFT")
unfolding accel_to_hypr accel_hypr_mods accel_keysym named
hypr_spelling = (refl, refl)

accel_parse-accel_format_example :
    (accel_parse_send (some (accel_format paste)) ≡ ok paste)
    × (accel_parse (some (accel_format paste)) ≡ check_binding paste)
accel_parse-accel_format_example = accel_parse-accel_format paste paste-IsCanonical

parse-IsCanonical_example : IsCanonical paste
parse-IsCanonical_example =
    parse-IsCanonical (some (codes " shift + Win+control+v")) true paste accepted
