-- ===== src/Nested/Runs.antt =====
-- `ParseError::rebased` of crates/layline-core/src/message.rs at a concrete input.
use layline.Prelude.{short, ◌≡◌, ◌+◌}
use layline.Nested.{rebased, position_of, moved, rebased-rebased}

rebased-rebased_example :
    (position_of (rebased 100 (short 9 4 2)) ≡ moved 100 (position_of (short 9 4 2)))
    × (rebased 100 (rebased 3 (short 9 4 2)) ≡ rebased (3 + 100) (short 9 4 2))
rebased-rebased_example = rebased-rebased 3 100 (short 9 4 2)
