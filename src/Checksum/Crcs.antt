-- ===== src/Checksum/Crcs.antt =====
-- `Crc` of crates/layline-core/src/checksum.rs as a `Checksum`: runs of bytes.
use layline.Prelude.{ℕ, List, [], ◌∷◌, ◌++◌, ◌≡◌, refl}
use layline.Checksum.{Checksum, Crc, crc_byte, crc_fold, crc_init, crc_finish}

pub crc_fold-append :
    (c : Crc) (crc : ℕ) (xs ys : List ℕ)
    → crc_fold c (crc_fold c crc xs) ys ≡ crc_fold c crc (xs ++ ys)
unfolding crc_fold
crc_fold-append c crc [] ys = refl
crc_fold-append c crc (x ∷ xs) ys = crc_fold-append c (crc_byte c crc x) xs ys

-- `Crc` is a `Checksum`.
abbrev pub crc_checksum : Crc → Checksum ℕ ℕ
crc_checksum c = record {
  init = crc_init c;
  update = crc_fold c;
  finish = crc_finish c;
  update-append = crc_fold-append c;
}
