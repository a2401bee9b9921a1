-- ===== src/ExpGolomb/Encode.antt =====
-- `ExpGolomb::encode` of crates/layline-core/src/num/expgolomb.rs, on any buffer.
use layline.Prelude.{ℕ, true}
use layline.Buffer.{Buffer, Status, ◌>>=◌}
use layline.Bits.Writer.{BitWriter, write, bit}
use layline.ExpGolomb.{split}

unfoldable pub encode : {B : Type 0} → Buffer B → ℕ → BitWriter B → BitWriter B × Status
unfolding split
encode buffer value w = do
  let (zero_bits, suffix) = split value
  w1 ← write buffer true 0 zero_bits w
  w2 ← bit buffer true true w1
  write buffer true suffix zero_bits w2
