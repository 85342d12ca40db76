-- ===== src/StaffError/Tests.antt =====
-- The properties of parseStaffError.ts at one error.
use beidar_pos.Prelude.{String, ◌≡◌, refl, none, some, ◌===◌, if◌then◌else◌}
use beidar_pos.Store.{Parsed, throws, other, value}
use beidar_pos.StaffError.{Payload, get_error_field}

abbrev weak_pin : Payload
weak_pin = record { code = some "WEAK_PIN"; message = some "weak"; hint = none; field = some "pin" }

abbrev parse : String → Parsed Payload
parse t = if t === "json" then value weak_pin else (if t === "42" then other else throws)

field_of_code : (get_error_field "WEAK_PIN" ≡ some "pin") × (get_error_field "LAST_ADMIN" ≡ none)
unfolding get_error_field
field_of_code = (refl, refl)
