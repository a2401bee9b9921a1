-- ===== src/Lib.antt =====
-- layline: binary wire formats as Rust types. This library models the runtime crate,
-- crates/layline-core, which the generated code calls; its paths below are from
-- crates/layline-core/src, if they do not begin with crates. Of the generator and the derive macro
-- it models the placing of fields in a fixed layout, the rules for such a layout, and the order of
-- the checksums of a message.
--
-- Frame and Frame/Decoder model frame.rs: `parse`, which looks for a frame at the front of a byte
-- buffer, and the `Decoder` that collects bytes and gives frames. `FrameSpec` is a record of
-- functions, so the caller's own code is a parameter; `IsSpec` holds the conditions under which
-- `Decoder::new` compiles, and the promises of a sound spec are named hypotheses. Frame/Scan,
-- Frame/Parse and Frame/Discard are about `parse`; the files of Frame/Decoder are about `push`,
-- `pop` and runs of them.
--
-- Bits models bits.rs: Bits/Reader the cursor that reads, Bits/Writer the one that writes, over any
-- buffer. Bits/Number says independently what a field of a byte string is, in both bit orders, and
-- Bits/RoundTrip and Bits/Patched join the two cursors. Buffer models buffer.rs: the trait `Buffer`
-- is a record of operations with the promises of its documentation, which Buffer/Vector and
-- Buffer/Fixed fill, and `written_mut` is the field `overwrite`.
--
-- Extent models mask.rs and extent.rs, Table models field.rs, and Segment models segment.rs: the
-- places of fields, and the tables that the generated code states and checks while it compiles.
-- Word models word.rs, a container loaded from the wire; Int models int.rs, integers of a stated
-- width; and Bound models bound.rs, whether an integer fits a field. Checksum models checksum.rs:
-- the trait as a record with its law, the CRCs and the 16-bit sum; Checksum/Serial says
-- independently what a CRC is, a register that takes one bit at a time. Varint models
-- num/varint.rs, and ExpGolomb num/expgolomb.rs, over the bit cursors. Codec models codec.rs and
-- the `Reserved` of num.rs, and Nested the move of an error in message.rs.
--
-- Layout models the generator's containers and fields, crates/layline-codegen/src/model/layout.rs,
-- field.rs and coverage.rs: Layout/Fields the kinds of fields and their widths, Layout/Covered the
-- bytes that a checksum covers. Layout/Solve models the solver of the derive macro,
-- crates/layline-derive/src/layout/solve.rs with the `Body` of layout/mod.rs; Layout/Solve/Mirror
-- says independently where the bits of a container stand under `order = msb`. Layout/Validate
-- models the rules of crates/layline-codegen/src/validate/layout.rs and coverage.rs, Message the
-- segments of model/message.rs, Stamping the order of their checksums, `stampable` of coverage.rs,
-- and Layout/Invalid the names and errors of validate.rs; the crate `syn` and the classes of
-- characters are the parameter `Syntax`. A diagnostic is a value with what its text shows, not the
-- text.
--
-- Prelude holds what the others share: numbers, lists, results, powers of two and bit operations.
--
-- Rust's integers are natural numbers with their wrap-around written out: `% 2 ^ w`, and saturation
-- for the counters of `Stats` and the bit positions. Lengths of slices, the sums of two of them and
-- the end of an `Extent` are not bounded; the ends of segment rows, and the widths and positions of
-- the generator, wrap around at 64 bits. Loops are structural, or have fuel: `pop` has one round
-- for each pending byte and one more, since each round drops a byte or returns; the loops of
-- `read`, `write`, `patch` and `pad` have one round for each bit or byte, since each round takes at
-- least one; the encode of LEB128 has ten rounds, of seven bits each, and the decode of Exp-Golomb
-- has 65, since it refuses 65 zero bits. The outcome for a panic or for no fuel left is a value of
-- its own, `panic`, `stuck` or `none`, so that a theorem on the outcome also says that the code
-- returns.
--
-- Not modelled: the rest of the derive and generator crates, which parse and build Rust code by the
-- crates `syn` and `quote`, and their other rules for messages, and those for enumerations and
-- dispatch; text.rs, a trait; and audit.rs and the Display impls, which print text.
mod Prelude
pub mod Frame
pub mod Bits
pub mod Buffer
pub mod Extent
pub mod Word
pub mod Nested
pub mod Codec
pub mod Bound
pub mod Varint
pub mod ExpGolomb
pub mod Int
pub mod Table
pub mod Layout
pub mod Segment
pub mod Checksum
pub mod Message
pub mod Stamping
