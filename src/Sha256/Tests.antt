-- ===== src/Sha256/Tests.antt =====
-- The digest of "abc".
use clipnet.Base.{◌/◌, ◌%◌, ◌≡◌, refl, [], ◌∷◌, length, Bytes, codes}
use clipnet.Sha256.Padding.{padded, hash_blocks, updates, joined, sha256_final-updates}
use clipnet.Sha256.{sha256, initial, sha256_init, digest, sha256_final}

abbrev abc_digest : Bytes
abc_digest =
    0xba ∷ 0x78 ∷ 0x16 ∷ 0xbf ∷ 0x8f ∷ 0x01 ∷ 0xcf ∷ 0xea ∷ 0x41 ∷ 0x41 ∷ 0x40 ∷ 0xde ∷ 0x5d ∷ 0xae
    ∷ 0x22 ∷ 0x23 ∷ 0xb0 ∷ 0x03 ∷ 0x61 ∷ 0xa3 ∷ 0x96 ∷ 0x17 ∷ 0x7a ∷ 0x9c ∷ 0xb4 ∷ 0x10 ∷ 0xff
    ∷ 0x61 ∷ 0xf2 ∷ 0x00 ∷ 0x15 ∷ 0xad ∷ []

abc : sha256 (codes "abc") ≡ abc_digest
unfolding sha256
abc = refl

sha256_final-updates_example :
    (length (padded (joined (codes "ab" ∷ codes "c" ∷ []))) % 64 ≡ 0)
    × (sha256_final (updates (codes "ab" ∷ codes "c" ∷ []) sha256_init)
        ≡ digest (
            hash_blocks
              (length (padded (joined (codes "ab" ∷ codes "c" ∷ []))) / 64)
              initial
              (padded (joined (codes "ab" ∷ codes "c" ∷ [])))))
sha256_final-updates_example = sha256_final-updates (codes "ab" ∷ codes "c" ∷ [])
