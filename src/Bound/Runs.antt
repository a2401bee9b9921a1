-- ===== src/Bound/Runs.antt =====
-- `fits_in_field` of crates/layline-core/src/bound.rs at concrete inputs.
use layline.Prelude.{◌≡◌, true, false, ◌↔◌, refl}
use layline.Prelude.Int.{negsuc}
use layline.Bound.{signed_int, is_negative, fits_in_field}
use layline.Bound.Fits.{InWidth, fits_in_field_iff}
use layline.Int.{sign_extend}
use layline.Extent.{mask64}

-- Four bits of an `i8`: -8 fits, -9 does not.
lowest-fits : fits_in_field (signed_int 8) (negsuc 7) 4 ≡ true
unfolding fits_in_field signed_int sign_extend mask64
lowest-fits = refl

below_lowest-fits : fits_in_field (signed_int 8) (negsuc 8) 4 ≡ false
unfolding fits_in_field signed_int sign_extend mask64
below_lowest-fits = refl

fits_in_field_iff_example :
    (fits_in_field (signed_int 8) (negsuc 7) 4 ≡ true)
    ↔ ((signed_int 8).to_i64 ((signed_int 8).from_i64 (negsuc 7)) ≡ negsuc 7)
      × InWidth
          (is_negative ((signed_int 8).to_i64 ((signed_int 8).from_i64 (negsuc 0))))
          4
          (negsuc 7)
fits_in_field_iff_example = fits_in_field_iff (signed_int 8) (negsuc 7) 4
