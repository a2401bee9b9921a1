-- ===== src/Checksum/Runs.antt =====
-- The checksums of crates/layline-core/src/checksum.rs at concrete inputs.
use layline.Prelude.{ℕ, ◌+◌, ◌%◌, ◌^◌, List, [], ◌∷◌, true, false, ◌≡◌, refl, arith}
use layline.Checksum.{
  Crc, crc_fold, crc_init, crc_finish, compute, sum16_close, sum16_feed, sum16_init,
}
use layline.Checksum.Crcs.{crc_checksum}
use layline.Checksum.Serial.{serial, wire_bits, crc_fold-serial}
use layline.Checksum.Sums.{word_sum, sum16_neg, compute-word_sum}

-- The bytes of "123456789".
abbrev digits : List ℕ
digits = 0x31 ∷ 0x32 ∷ 0x33 ∷ 0x34 ∷ 0x35 ∷ 0x36 ∷ 0x37 ∷ 0x38 ∷ 0x39 ∷ []

abbrev x25 : Crc
x25 = record { width = 16; poly = 0x8408; seed = 0xFFFF; xorout = 0xFFFF; reflect = true }

abbrev ccitt : Crc
ccitt = record { width = 16; poly = 0x1021; seed = 0xFFFF; xorout = 0; reflect = false }

x25-digits : compute (crc_checksum x25) digits ≡ 0x906E
unfolding compute crc_fold crc_init crc_finish
x25-digits = refl

ccitt-digits : compute (crc_checksum ccitt) digits ≡ 0x29B1
unfolding compute crc_fold crc_init crc_finish
ccitt-digits = refl

sum-digits : compute (sum16_neg false) digits ≡ 0x2AF7
unfolding compute sum16_feed sum16_init sum16_close
sum-digits = refl

crc_fold-serial_example :
    crc_fold x25 0xFFFF (0x31 ∷ 0x32 ∷ [])
    ≡ serial x25 0xFFFF (wire_bits x25.reflect (0x31 ∷ 0x32 ∷ []))
crc_fold-serial_example =
    crc_fold-serial x25 0xFFFF (0x31 ∷ 0x32 ∷ []) (omega arith) (omega arith, (omega arith, tt))

ccitt_by_bits : serial ccitt 0xFFFF (wire_bits false digits) ≡ 0x29B1
ccitt_by_bits = refl

compute-word_sum_example :
    ((word_sum false digits + compute (sum16_neg false) digits) % 2 ^ 16 ≡ 0)
    × (sum16_close false (
          sum16_feed false
            (sum16_feed false sum16_init (0x31 ∷ []))
            (0x32 ∷ 0x33 ∷ 0x34 ∷ 0x35 ∷ 0x36 ∷ 0x37 ∷ 0x38 ∷ 0x39 ∷ []))
        ≡ compute (sum16_neg false) digits)
compute-word_sum_example =
    compute-word_sum false (0x31 ∷ []) (0x32 ∷ 0x33 ∷ 0x34 ∷ 0x35 ∷ 0x36 ∷ 0x37 ∷ 0x38 ∷ 0x39 ∷ [])
