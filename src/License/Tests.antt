-- ===== src/License/Tests.antt =====
-- The properties of the licence functions at a small licence.
use beidar_pos.Prelude.{◌≡◌, ◌⊎◌, refl, true, false, none, some}
use beidar_pos.License.{
  License, row, absent, fetch_error, LicenseUpdate, check_activation, activate, apply_update,
  verify, matches_user,
}
use beidar_pos.License.Owner.{
  is_licensed, IsBindable, activate_binds_only_free, activate_then_verify,
}

abbrev free : License
free = record {
  id = "1";
  license_key = "ABC";
  user_id = none;
  status = "active";
  expires_at = some 5000;
  features = none;
  bound_at = none;
  last_check_in = none;
}

abbrev owned : License
owned = record free { user_id = some "u1" }

abbrev binding : LicenseUpdate
binding = record { row_id = "1"; user_id = "u1"; bound_at = 1000; last_check_in = 1000 }

activation : (check_activation "u1" 1000 (row free)).1 ≡ some binding
unfolding check_activation
activation = refl

activate_binds_only_free_example :
    ((IsBindable "u1" free
        × ((check_activation "u1" 1000 (row free)).1 ≡ some binding)
        × (is_licensed (activate "u1" 1000 (row free) true) ≡ true))
      ⊎ ((¬ IsBindable "u1" free)
          × ((check_activation "u1" 1000 (row free)).1 ≡ none)
          × (is_licensed (activate "u1" 1000 (row free) true) ≡ false)))
    × (is_licensed (activate "u1" 1000 absent true) ≡ false)
    × (is_licensed (activate "u1" 1000 fetch_error true) ≡ false)
activate_binds_only_free_example = activate_binds_only_free "u1" 1000 free true

activate_then_verify_example :
    ((apply_update binding free).user_id ≡ some "u1")
    × (matches_user "u1" (apply_update binding free) ≡ true)
    × (is_licensed (verify 4000 (row (apply_update binding free))).0 ≡ true)
activate_then_verify_example = activate_then_verify "u1" 1000 4000 free activation
