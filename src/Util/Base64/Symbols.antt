-- ===== src/Util/Base64/Symbols.antt =====
-- One round of the decoder at a character of the alphabet.
use clipnet.Base.{
  ℕ, ◌+◌, ◌-◌, ◌/◌, ◌%◌, ◌^◌, ◌≤◌, ◌<◌, ◌≡◌, refl, Bool, true, false, ◌&&◌, not, none, some, [],
  ◌∷◌, ◌++◌, arith, ◌==◌, Bytes,
}
use clipnet.Base.Masks.{all_below, all_below_sound}
use clipnet.Util.Base64.{alphabet, symbol, position, is_blank, decode_loop, shift_in}

abbrev is_symbol : ℕ → ℕ → Bool
is_symbol v c =
    elim (position c alphabet) [ none ↦ false | some i ↦ i == v ]
    && not (is_blank c)
    && not (c == b'=')

symbol_table : all_below 64 (λ v. is_symbol v (symbol v)) ≡ true
unfolding all_below symbol position is_blank
symbol_table = refl

symbol_lem :
    (v : ℕ)
    → v < 64
    → (position (symbol v) alphabet ≡ some v)
      × (is_blank (symbol v) ≡ false)
      × ((symbol v == b'=') ≡ false)
symbol_lem v h =
    let hit = all_below_sound 64 (λ v. is_symbol v (symbol v)) v symbol_table h in
    ground (arith, hit)

module _ (v : ℕ) (s : Bytes) (acc bits : ℕ) (out : Bytes) (h : v < 64) where
  -- Fewer than eight bits are held: the symbol is kept.
  pub decode_keep :
      bits < 2
      → decode_loop (symbol v ∷ s) acc bits 0 out ≡ decode_loop s (shift_in acc v) (bits + 6) 0 out
  unfolding decode_loop
  decode_keep small = ground (arith, symbol_lem v h)

  -- A byte is written.
  pub decode_write :
      2 ≤ bits
      → decode_loop (symbol v ∷ s) acc bits 0 out
        ≡ decode_loop s
            (shift_in acc v)
            (bits + 6 - 8)
            0
            (out ++ (shift_in acc v / 2 ^ (bits + 6 - 8) % 256) ∷ [])
  unfolding decode_loop
  decode_write large = ground (arith, symbol_lem v h)
