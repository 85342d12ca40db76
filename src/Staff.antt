-- ===== src/Staff.antt =====
-- The staff manager: frontend/src/components/StaffManager.tsx, with the checks of
-- frontend/src/core/schemas/staff.schema.ts. Names, user names and PINs are their characters.
mod Tests
pub mod Submit
pub mod Sent
pub mod Deletion
use beidar_pos.Prelude.{
  ℕ, ◌+◌, String, Bool, true, false, not, ◌&&◌, ◌||◌, Option, none, some, List, [], ◌∷◌, ◌++◌, leb,
  ltb, ◌==◌, ◌===◌, if◌then◌else◌, length, take, keep_if, is_some, any,
}
use beidar_pos.Logger.Mask.{Text}
use beidar_pos.Confirm.{ConfirmState}

pub record Staff : Type 0 where
  pub id : String
  pub name : Text
  pub username : Text
  pub role : String
  pub phone : String
  pub email : String
  pub active : Bool
  pub permissions : List String
  pub must_change_pin : Bool
  pub created_at : ℕ

abbrev pub empty_staff : Staff
empty_staff = record {
  id = "";
  name = [];
  username = [];
  role = "cashier";
  phone = "";
  email = "";
  active = true;
  permissions = [];
  must_change_pin = false;
  created_at = 0;
}

-- The errors of the form by field, in the order in which the fields were first given one.
abbrev pub Errors : Type 0
Errors = List (String × String)

-- `errors[field] = message`
abbrev pub set_error : String → String → Errors → Errors
set_error field message [] = (field, message) ∷ []
set_error field message ((other, m) ∷ rest) =
    if other === field then (other, message) ∷ rest else (other, m) ∷ set_error field message rest

-- The characters of a user name: letters, digits and the underscore.
abbrev pub is_word : ℕ → Bool
is_word c =
    leb b'a' c && leb c b'z' || leb b'A' c && leb c b'Z' || leb b'0' c && leb c b'9' || c == b'_'

abbrev pub is_digit : ℕ → Bool
is_digit c = leb b'0' c && leb c b'9'

abbrev pub every : (ℕ → Bool) → Text → Bool
every p [] = true
every p (c ∷ cs) = p c && every p cs

-- `/^[a-zA-Z0-9_]+$/`
unfoldable pub is_username : Text → Bool
is_username [] = false
is_username (c ∷ cs) = every is_word (c ∷ cs)

-- `/^\d{4}$/`
unfoldable pub is_pin : Text → Bool
is_pin pin = length pin == 4 && every is_digit pin

abbrev pub is_role : String → Bool
is_role role = role === "admin" || role === "manager" || role === "cashier" || role === "viewer"

abbrev pub at : String → Bool → String → Errors → Errors
at field wrong message rest = if wrong then (field, message) ∷ rest else rest

-- `validateStaffInput`; the last message of a field counts. The library says what an e-mail address is, and what it
-- says of a role that is none.
unfoldable pub staff_errors : (String → Bool) → String → Staff → Errors
staff_errors is_email no_role s =
    at "name" (ltb (length s.name) 2)
      "\u{627}\u{644}\u{627}\u{633}\u{645} \u{64a}\u{62c}\u{628} \u{623}\u{646} \u{64a}\u{643}\u{648}\u{646} \u{62d}\u{631}\u{641}\u{64a}\u{646} \u{639}\u{644}\u{649} \u{627}\u{644}\u{623}\u{642}\u{644}"
      (at "username" (ltb (length s.username) 3 || not (is_username s.username))
        (if is_username s.username
          then "\u{627}\u{633}\u{645} \u{627}\u{644}\u{645}\u{633}\u{62a}\u{62e}\u{62f}\u{645} \u{64a}\u{62c}\u{628} \u{623}\u{646} \u{64a}\u{643}\u{648}\u{646} 3 \u{62d}\u{631}\u{648}\u{641} \u{639}\u{644}\u{649} \u{627}\u{644}\u{623}\u{642}\u{644}"
          else "\u{627}\u{633}\u{645} \u{627}\u{644}\u{645}\u{633}\u{62a}\u{62e}\u{62f}\u{645} \u{64a}\u{62c}\u{628} \u{623}\u{646} \u{64a}\u{62d}\u{62a}\u{648}\u{64a} \u{639}\u{644}\u{649} \u{623}\u{62d}\u{631}\u{641} \u{648}\u{623}\u{631}\u{642}\u{627}\u{645} \u{641}\u{642}\u{637}")
        (at "role" (not (is_role s.role)) no_role (
          at "email" (not (is_email s.email || s.email === ""))
            "\u{628}\u{631}\u{64a}\u{62f} \u{625}\u{644}\u{643}\u{62a}\u{631}\u{648}\u{646}\u{64a} \u{63a}\u{64a}\u{631} \u{635}\u{627}\u{644}\u{62d}"
            [])))

pub data Kind : Type 0 where
  success error : Kind

pub record GeneralError : Type 0 where
  pub message : String
  pub hint : Option String

-- The state of the dialog; notices latest first. `refreshes` counts the reloads after a change. What a confirmed
-- dialog does is a deletion, forced or not.
pub record StaffState : Type 0 where
  pub show_form : Bool
  pub editing_staff : Option Staff
  pub form_data : Staff
  pub pin : Text
  pub confirm_modal : ConfirmState (String × Bool)
  pub errors : Errors
  pub error_hints : Errors
  pub general_error : Option GeneralError
  pub notices : List (String × Kind)
  pub refreshes : ℕ

abbrev pub notify : String → Kind → StaffState → StaffState
notify message kind s = record s { notices = (message, kind) ∷ s.notices }

-- `invalidateStaff`, `invalidateAllData` and `loadStaff`.
abbrev pub refresh : StaffState → StaffState
refresh s = record s { refreshes = s.refreshes + 1 }

unfoldable pub reset_form : StaffState → StaffState
reset_form s = record s {
  form_data = empty_staff;
  pin = [];
  editing_staff = none;
  show_form = false;
  errors = [];
  error_hints = [];
  general_error = none;
}

unfoldable pub start_edit : Staff → StaffState → StaffState
start_edit staff s = record s {
  editing_staff = some staff;
  form_data = staff;
  pin = [];
  errors = [];
  error_hints = [];
  general_error = none;
  show_form = true;
}

-- The button for a new employee.
unfoldable pub start_new : StaffState → StaffState
start_new s = record s { show_form = true; editing_staff = none; form_data = empty_staff }

-- The input of the PIN: the first four digits.
unfoldable pub set_pin : Text → StaffState → StaffState
set_pin typed s = record s { pin = take 4 (keep_if is_digit typed) }

-- `handleToggleStatus` from the answer on.
unfoldable pub finish_toggle : Bool → StaffState → StaffState
finish_toggle toggled s =
    if toggled
    then refresh s
    else notify
        "\u{641}\u{634}\u{644} \u{62a}\u{63a}\u{64a}\u{64a}\u{631} \u{627}\u{644}\u{62d}\u{627}\u{644}\u{629}"
        error s
