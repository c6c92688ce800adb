-- ===== src/Accel/RoundTrip.antt =====
-- `accel_format` and `accel_parse` one after the other, and `accel_matches_hypr`.
use clipnet.Base.{
  ℕ, ◌+◌, ◌≡◌, refl, Bool, true, false, ◌&&◌, some, arith, ◌==◌, Bytes, bytes_eq, bytes_eq_sound,
  and_true, all_keys,
}
use clipnet.Accel.{
  Accel, accel_keysym, Parsed, check_binding, accel_parse, accel_parse_send, accel_format,
  accel_matches_hypr, add_modifier, shift_alone, ok, err,
}
use clipnet.Accel.Canonical.{
  canonical_keys, IsCanonical, all_masks, every_shortcut, every_shortcut_sound,
}

abbrev same_parsed : Parsed → Parsed → Bool
same_parsed (ok a) (ok b) = a.mods == b.mods && bytes_eq a.key b.key
same_parsed (err add_modifier) (err add_modifier) = true
same_parsed (err shift_alone) (err shift_alone) = true
same_parsed _ _ = false

same_parsed_sound : (a b : Parsed) → same_parsed a b ≡ true → a ≡ b
same_parsed_sound (ok a) (ok b) h = ground (arith, bytes_eq_sound a.key b.key)
same_parsed_sound (err e) (ok b) h = ground arith
same_parsed_sound (ok a) (err e) h = ground arith
same_parsed_sound (err e) (err f) h = ground arith

reads_back : ℕ → Bytes → Bool
reads_back m k =
    let a : Accel = record { mods = m; key = k } in
    same_parsed (accel_parse_send (some (accel_format a))) (ok a)
    && same_parsed (accel_parse (some (accel_format a))) (check_binding a)

reads_back_table : every_shortcut reads_back ≡ true
unfolding all_masks all_keys reads_back canonical_keys accel_parse_send accel_parse accel_format
reads_back_table = refl

-- Every canonical shortcut is read back from what `accel_format` writes; for a binding the reader makes
-- the two tests that a binding is subject to, and no other.
pub accel_parse-accel_format :
    (a : Accel)
    → IsCanonical a
    → (accel_parse_send (some (accel_format a)) ≡ ok a)
      × (accel_parse (some (accel_format a)) ≡ check_binding a)
unfolding reads_back
accel_parse-accel_format a c =
    let (send, bind) = and_true _ _ (every_shortcut_sound reads_back a reads_back_table c) in
    (same_parsed_sound _ _ send, same_parsed_sound _ _ bind)

-- Caps Lock (2) and Num Lock (16) are ignored.
reported : ℕ → Bytes → Bool
reported m k =
    let a : Accel = record { mods = m; key = k } in
    accel_matches_hypr a m (accel_keysym a)
    && accel_matches_hypr a (m + 2) (accel_keysym a)
    && accel_matches_hypr a (m + 16) (accel_keysym a)
    && accel_matches_hypr a (m + 18) (accel_keysym a)

reported_table : every_shortcut reported ≡ true
unfolding all_masks all_keys reported canonical_keys accel_matches_hypr accel_keysym
reported_table = refl

-- A shortcut matches the bind that Hyprland reports for its modifiers and its keysym, whether or not
-- Caps Lock and Num Lock are among the modifiers.
accel_matches_hypr-keysym :
    (a : Accel)
    → IsCanonical a
    → (accel_matches_hypr a a.mods (accel_keysym a) ≡ true)
      × (accel_matches_hypr a (a.mods + 2) (accel_keysym a) ≡ true)
      × (accel_matches_hypr a (a.mods + 16) (accel_keysym a) ≡ true)
      × (accel_matches_hypr a (a.mods + 18) (accel_keysym a) ≡ true)
unfolding reported
accel_matches_hypr-keysym a c =
    let hit = every_shortcut_sound reported a reported_table c in
    let (three, fourth) = and_true _ _ hit in
    let (two, third) = and_true _ _ three in
    let (first, second) = and_true _ _ two in (first, second, third, fourth)
