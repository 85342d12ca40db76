-- ===== src/Utils/Tests.antt =====
-- The properties of utils.ts at small values.
use beidar_pos.Prelude.{◌≡◌, refl, none, some, [], ◌∷◌, ◌===◌, if◌then◌else◌}
use beidar_pos.Prelude.Int.{pos, ◌+ℤ◌, ◌-ℤ◌, ◌*ℤ◌, round_div, floor_div}
use beidar_pos.Logger.{codes}
use beidar_pos.Logger.Mask.{Text, is_space}
use beidar_pos.Utils.{
  text, Prefs, sanitize_prefs_for_storage, sanitize_csv_cell, calculate_cart_total,
}

abbrev formula : Text
formula = codes " =SUM(A1)"

formula_is_quoted : sanitize_csv_cell (some formula) ≡ codes "' =SUM(A1)"
unfolding sanitize_csv_cell is_space
formula_is_quoted = refl

cart_total :
    calculate_cart_total
      (record { price = pos 1_255; qty = pos 3_000; item_discount = some (pos 500) } ∷ [])
    ≡ pos 328
unfolding calculate_cart_total ◌+ℤ◌ ◌-ℤ◌ ◌*ℤ◌ round_div floor_div
cart_total = refl

abbrev prefs : Prefs
prefs key =
    if key === "adminPin"
    then some (text "1234")
    else (if key === "theme" then some (text "dark") else none)

pin_is_masked :
    (sanitize_prefs_for_storage prefs "adminPin" ≡ some (text "********"))
    × (sanitize_prefs_for_storage prefs "theme" ≡ some (text "dark"))
unfolding sanitize_prefs_for_storage
pin_is_masked = (refl, refl)
