-- ===== src/Int/Runs.antt =====
-- `U<N>` and `I<N>` of crates/layline-core/src/int.rs at concrete inputs.
use layline.Prelude.{◌%◌, ◌^◌, ◌-◌, ◌≡◌, refl, arith, ltb, if◌then◌else◌, some, none}
use layline.Prelude.Int.{negsuc}
use layline.Int.{new_u, from_raw_u, to_raw_u, new_i, from_raw_i, to_raw_i}
use layline.Int.Unsigned.{new_u-from_raw_u}
use layline.Int.Signed.{signed, magnitude, new_i-from_raw_i}

new_u-from_raw_u_example :
    (new_u 4 16 ≡ (if ltb 16 (2 ^ 4) then some 16 else none))
    × (to_raw_u (from_raw_u 4 0xFF) ≡ 0xFF % 2 ^ 4)
    × (from_raw_u 4 (to_raw_u (0xFF % 2 ^ 4)) ≡ 0xFF % 2 ^ 4)
new_u-from_raw_u_example = new_u-from_raw_u 4 16 0xFF (omega arith, omega arith)

-- 0b1001 in four bits is -7.
from_raw_i-nine : from_raw_i 4 9 ≡ negsuc 6
unfolding from_raw_i
from_raw_i-nine = refl

new_i-from_raw_i_example :
    (new_i 4 (negsuc 8)
      ≡ (if ltb (magnitude (negsuc 8)) (2 ^ (4 - 1)) then some (negsuc 8) else none))
    × (from_raw_i 4 0x19 ≡ signed 4 (0x19 % 2 ^ 4))
    × (to_raw_i 4 (from_raw_i 4 0x19) ≡ 0x19 % 2 ^ 4)
    × (from_raw_i 4 (to_raw_i 4 (negsuc 6)) ≡ negsuc 6)
new_i-from_raw_i_example =
    new_i-from_raw_i 4 0x19 (negsuc 8) (negsuc 6) (omega arith, omega arith) (omega arith)
