-- ===== src/Db/Clips/Content.antt =====
-- `dbi_content_hash` of daemon/src/db.c. qsort, which the model does not see, is here an insertion sort;
-- it leaves formats of one name in an order of its own, and a clip has a name once.
use clipnet.Base.{
  ℕ, zero, suc, ◌/◌, ◌%◌, Bool, true, false, ◌&&◌, ◌||◌, List, [], ◌∷◌, ◌++◌, ltb, ◌==◌,
  if◌then◌else◌, length, Bytes,
}
use clipnet.Db.Clips.{FmtIn}
use clipnet.Sha256.{Sha256, sha256_init, sha256_update, sha256_final}

-- strcmp(a, b) < 0.
unfoldable pub before : Bytes → Bytes → Bool
before [] [] = false
before [] (y ∷ ys) = true
before (x ∷ xs) [] = false
before (x ∷ xs) (y ∷ ys) = ltb x y || x == y && before xs ys

abbrev pub insert_fmt : FmtIn → List FmtIn → List FmtIn
insert_fmt f [] = f ∷ []
insert_fmt f (g ∷ gs) = if before g.mime f.mime then g ∷ insert_fmt f gs else f ∷ g ∷ gs

abbrev pub sort_fmts : List FmtIn → List FmtIn
sort_fmts [] = []
sort_fmts (f ∷ fs) = insert_fmt f (sort_fmts fs)

-- The `n` bytes of a number, the least one first.
abbrev pub little_endian : ℕ → ℕ → Bytes
little_endian zero k = []
little_endian (suc n) k = k % 256 ∷ little_endian n (k / 256)

unfoldable pub hash_fmts : List FmtIn → Sha256 → Sha256
unfolding sha256_update
hash_fmts [] s = s
hash_fmts (f ∷ fs) s = hash_fmts fs (
    sha256_update
      (sha256_update (sha256_update s (f.mime ++ 0 ∷ [])) (little_endian 8 (length f.bytes)))
      f.bytes)

unfoldable pub dbi_content_hash : List FmtIn → Bytes
unfolding hash_fmts sha256_init sha256_final
dbi_content_hash fmts = sha256_final (hash_fmts (sort_fmts fmts) sha256_init)
