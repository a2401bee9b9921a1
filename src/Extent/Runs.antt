-- ===== src/Extent/Runs.antt =====
-- `Extent` of crates/layline-core/src/extent.rs at concrete inputs.
use layline.Prelude.{◌%◌, ◌^◌, ◌<◌, ◌≡◌, arith, inl}
use layline.Extent.{Extent, extract_wide, insert_wide, extract, insert}
use layline.Extent.Insert.{extract_wide-insert_wide, insert-extract}

abbrev nineteen : Extent
nineteen = record { start = 19; width = 19 }

abbrev thirteen : Extent
thirteen = record { start = 0; width = 13 }

extract_wide-insert_wide_example :
    (insert_wide nineteen 0x1FFF 0x5A5A5A < 2 ^ 128)
    × (extract_wide nineteen (insert_wide nineteen 0x1FFF 0x5A5A5A) ≡ 0x5A5A5A % 2 ^ 19)
    × (extract_wide thirteen (insert_wide nineteen 0x1FFF 0x5A5A5A) ≡ extract_wide thirteen 0x1FFF)
extract_wide-insert_wide_example =
    extract_wide-insert_wide nineteen thirteen 0x1FFF 0x5A5A5A (omega arith, omega arith)
      (omega arith, omega arith) (inl (omega arith)) (omega arith)

insert-extract_example : insert nineteen 0xFFFFFFFFFF (extract nineteen 0xFFFFFFFFFF) ≡ 0xFFFFFFFFFF
insert-extract_example =
    insert-extract nineteen 0xFFFFFFFFFF (omega arith, omega arith) (omega arith) (omega arith)
