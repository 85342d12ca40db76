-- ===== src/StaffError.antt =====
-- Errors of the staff screens: frontend/src/utils/parseStaffError.ts.
mod Tests
use beidar_pos.Prelude.{
  String, ◌≡◌, ◌≢◌, refl, Bool, true, false, ◌&&◌, not, Option, none, some, List, [], ◌∷◌, arith,
  eq_iff, ◌===◌, if◌then◌else◌, or_default, is_some,
}
use beidar_pos.Store.{truthy, Parsed, throws, other, value}

pub record StaffError : Type 0 where
  pub code : String
  pub message : String
  pub hint : Option String
  pub field : Option String

-- The fields of an error object, or of the JSON of one, as texts: absent where missing. A code is taken to be
-- no name of a property that every object inherits.
pub record Payload : Type 0 where
  pub code : Option String
  pub message : Option String
  pub hint : Option String
  pub field : Option String

-- What is thrown: nothing or another falsy value, a text, an `Error`, another object, or any other value.
pub data Thrown : Type 0 where
  falsy : Thrown
  text : String → Thrown
  failure : String → Thrown
  object : Payload → Thrown
  primitive : Thrown

abbrev Table : Type 0
Table = List (String × String)

abbrev look_up : String → Table → Option String
look_up k [] = none
look_up k ((j, v) ∷ rest) = if j === k then some v else look_up k rest

abbrev hints : Table
hints =
    (
      "DUPLICATE_USERNAME",
      "\u{62c}\u{631}\u{628} \u{627}\u{633}\u{645} \u{645}\u{633}\u{62a}\u{62e}\u{62f}\u{645} \u{622}\u{62e}\u{631} \u{623}\u{648} \u{623}\u{636}\u{641} \u{623}\u{631}\u{642}\u{627}\u{645}\u{627}ً \u{641}\u{64a} \u{627}\u{644}\u{646}\u{647}\u{627}\u{64a}\u{629}",
    )
    ∷ (
      "WEAK_PASSWORD",
      "\u{627}\u{633}\u{62a}\u{62e}\u{62f}\u{645} \u{643}\u{644}\u{645}\u{629} \u{645}\u{631}\u{648}\u{631} \u{623}\u{642}\u{648}\u{649} (4 \u{623}\u{62d}\u{631}\u{641} \u{639}\u{644}\u{649} \u{627}\u{644}\u{623}\u{642}\u{644})",
    )
    ∷ (
      "INVALID_EMAIL",
      "\u{62a}\u{623}\u{643}\u{62f} \u{645}\u{646} \u{635}\u{62d}\u{629} \u{627}\u{644}\u{628}\u{631}\u{64a}\u{62f} \u{627}\u{644}\u{625}\u{644}\u{643}\u{62a}\u{631}\u{648}\u{646}\u{64a} (\u{645}\u{62b}\u{627}\u{644}: user@example.com)",
    )
    ∷ (
      "STAFF_INVALID_PHONE",
      "\u{64a}\u{62c}\u{628} \u{623}\u{646} \u{64a}\u{628}\u{62f}\u{623} \u{628}\u{640} 07 \u{648}\u{64a}\u{62a}\u{643}\u{648}\u{646} \u{645}\u{646} 11 \u{631}\u{642}\u{645}\u{627}ً",
    )
    ∷ (
      "STAFF_NOT_FOUND",
      "\u{627}\u{644}\u{645}\u{648}\u{638}\u{641} \u{63a}\u{64a}\u{631} \u{645}\u{648}\u{62c}\u{648}\u{62f}، \u{62d}\u{627}\u{648}\u{644} \u{62a}\u{62d}\u{62f}\u{64a}\u{62b} \u{627}\u{644}\u{642}\u{627}\u{626}\u{645}\u{629}",
    )
    ∷ (
      "LAST_ADMIN",
      "\u{623}\u{636}\u{641} \u{645}\u{62f}\u{64a}\u{631}\u{627}ً \u{622}\u{62e}\u{631} \u{623}\u{648}\u{644}\u{627}ً \u{642}\u{628}\u{644} \u{62a}\u{639}\u{62f}\u{64a}\u{644} \u{647}\u{630}\u{627} \u{627}\u{644}\u{645}\u{62f}\u{64a}\u{631}",
    )
    ∷ (
      "STAFF_HAS_SALES",
      "\u{627}\u{644}\u{645}\u{648}\u{638}\u{641} \u{644}\u{62f}\u{64a}\u{647} \u{633}\u{62c}\u{644} \u{645}\u{628}\u{64a}\u{639}\u{627}\u{62a}. \u{64a}ُ\u{646}\u{635}\u{62d} \u{628}\u{62a}\u{639}\u{637}\u{64a}\u{644}\u{647} \u{628}\u{62f}\u{644}\u{627}ً \u{645}\u{646} \u{62d}\u{630}\u{641}\u{647}",
    )
    ∷ (
      "WEAK_PIN",
      "\u{62a}\u{62c}\u{646}\u{628} \u{627}\u{644}\u{623}\u{631}\u{642}\u{627}\u{645} \u{627}\u{644}\u{633}\u{647}\u{644}\u{629} \u{645}\u{62b}\u{644} 0000 \u{623}\u{648} 1234",
    )
    ∷ (
      "PIN_TOO_SHORT",
      "\u{631}\u{645}\u{632} PIN \u{64a}\u{62c}\u{628} \u{623}\u{646} \u{64a}\u{643}\u{648}\u{646} 4 \u{623}\u{631}\u{642}\u{627}\u{645}",
    )
    ∷ (
      "PIN_NOT_NUMERIC",
      "\u{631}\u{645}\u{632} PIN \u{64a}\u{62c}\u{628} \u{623}\u{646} \u{64a}\u{62d}\u{62a}\u{648}\u{64a} \u{639}\u{644}\u{649} \u{623}\u{631}\u{642}\u{627}\u{645} \u{641}\u{642}\u{637}",
    )
    ∷ (
      "STAFF_INVALID_NAME",
      "\u{627}\u{644}\u{627}\u{633}\u{645} \u{64a}\u{62c}\u{628} \u{623}\u{646} \u{64a}\u{643}\u{648}\u{646} \u{62d}\u{631}\u{641}\u{64a}\u{646} \u{639}\u{644}\u{649} \u{627}\u{644}\u{623}\u{642}\u{644}",
    )
    ∷ (
      "INVALID_USERNAME",
      "\u{627}\u{633}\u{645} \u{627}\u{644}\u{645}\u{633}\u{62a}\u{62e}\u{62f}\u{645} \u{64a}\u{62c}\u{628} \u{623}\u{646} \u{64a}\u{643}\u{648}\u{646} 3-20 \u{62d}\u{631}\u{641}\u{627}ً",
    )
    ∷ (
      "PASSWORD_REQUIRED",
      "\u{643}\u{644}\u{645}\u{629} \u{627}\u{644}\u{645}\u{631}\u{648}\u{631} \u{645}\u{637}\u{644}\u{648}\u{628}\u{629} \u{644}\u{644}\u{645}\u{648}\u{638}\u{641} \u{627}\u{644}\u{62c}\u{62f}\u{64a}\u{62f}",
    )
    ∷ (
      "MISSING_STAFF_ID",
      "\u{62d}\u{62f}\u{62b} \u{62e}\u{637}\u{623} \u{62a}\u{642}\u{646}\u{64a}، \u{62d}\u{627}\u{648}\u{644} \u{62a}\u{62d}\u{62f}\u{64a}\u{62b} \u{627}\u{644}\u{635}\u{641}\u{62d}\u{629}",
    )
    ∷ (
      "DATABASE_ERROR",
      "\u{62d}\u{62f}\u{62b} \u{62e}\u{637}\u{623} \u{641}\u{64a} \u{642}\u{627}\u{639}\u{62f}\u{629} \u{627}\u{644}\u{628}\u{64a}\u{627}\u{646}\u{627}\u{62a}، \u{62d}\u{627}\u{648}\u{644} \u{645}\u{631}\u{629} \u{623}\u{62e}\u{631}\u{649}",
    )
    ∷ []

abbrev field_map : Table
field_map =
    ("DUPLICATE_USERNAME", "username")
    ∷ ("INVALID_USERNAME", "username")
    ∷ ("WEAK_PASSWORD", "password")
    ∷ ("PASSWORD_REQUIRED", "password")
    ∷ ("INVALID_EMAIL", "email")
    ∷ ("STAFF_INVALID_PHONE", "phone")
    ∷ ("STAFF_INVALID_NAME", "name")
    ∷ ("WEAK_PIN", "pin")
    ∷ ("PIN_TOO_SHORT", "pin")
    ∷ ("PIN_NOT_NUMERIC", "pin")
    ∷ []

abbrev pub general_hint : String
general_hint =
    "\u{62d}\u{627}\u{648}\u{644} \u{645}\u{631}\u{629} \u{623}\u{62e}\u{631}\u{649} \u{623}\u{648} \u{62a}\u{648}\u{627}\u{635}\u{644} \u{645}\u{639} \u{627}\u{644}\u{62f}\u{639}\u{645} \u{627}\u{644}\u{641}\u{646}\u{64a}"

abbrev pub unknown : String
unknown = "UNKNOWN_ERROR"

-- `getDefaultHint`
unfoldable pub get_default_hint : String → String
get_default_hint code = or_default (look_up code hints) general_hint

-- `getErrorField`
unfoldable pub get_error_field : String → Option String
get_error_field code = look_up code field_map

abbrev pub default_error : StaffError
default_error = record {
  code = unknown;
  message =
      "\u{62d}\u{62f}\u{62b} \u{62e}\u{637}\u{623} \u{63a}\u{64a}\u{631} \u{645}\u{62a}\u{648}\u{642}\u{639}";
  hint = some general_hint;
  field = none;
}

-- An error of which only the message is known.
abbrev pub unknown_error : String → StaffError
unknown_error message = record {
  code = unknown;
  message = message;
  hint = some (get_default_hint unknown);
  field = none;
}

-- An error that has a code and a message, from its JSON: the field is taken as it is.
from_json : Payload → Option StaffError
unfolding get_default_hint
from_json p = elim (truthy p.code) [
  | none ↦ none
  | some code ↦ elim (truthy p.message) [
    | none ↦ none
    | some message ↦ some (record {
      code = code;
      message = message;
      hint = some (or_default (truthy p.hint) (get_default_hint code));
      field = p.field;
    })
  ]
]

-- From an object: an empty field is dropped, and an object with no code keeps its message.
from_object : Payload → StaffError
unfolding get_default_hint
from_object p = elim (truthy p.message) [
  | none ↦ default_error
  | some message ↦ elim (truthy p.code) [
    | none ↦ unknown_error message
    | some code ↦ record {
      code = code;
      message = message;
      hint = some (or_default (truthy p.hint) (get_default_hint code));
      field = truthy p.field;
    }
  ]
]

module _ (parse_json : String → Parsed Payload) where
  -- `parseStaffError`: `parse_json` is `JSON.parse` with the test of its fields, where `null` throws and a
  -- value with no such fields is `other`.
  unfoldable pub parse_staff_error : Thrown → StaffError
  unfolding from_json from_object
  parse_staff_error falsy = default_error
  parse_staff_error (text t) = if t === "" then default_error else elim (parse_json t) [
    | throws ↦ unknown_error t
    | other ↦ default_error
    | value p ↦ or_default (from_json p) default_error
  ]
  parse_staff_error (failure message) = elim (parse_json message) [
    | throws ↦ unknown_error message
    | other ↦ unknown_error message
    | value p ↦ or_default (from_json p) (unknown_error message)
  ]
  parse_staff_error (object p) = from_object p
  parse_staff_error primitive = default_error

  -- However the backend's error arrives, as a JSON text, as the message of an `Error` or as an object, it is
  -- read the same, if it has a code and a message and no empty field.
  pub same_by_any_route :
      (t : String) (p : Payload) {code message : String}
      → parse_json t ≡ value p
      → (t === "") ≡ false
      → truthy p.code ≡ some code
      → truthy p.message ≡ some message
      → truthy p.field ≡ p.field
      → (parse_staff_error (text t) ≡ parse_staff_error (object p))
        × (parse_staff_error (failure t) ≡ parse_staff_error (object p))
        × ((parse_staff_error (object p)).code ≡ code)
        × ((parse_staff_error (object p)).message ≡ message)
  unfolding parse_staff_error from_json from_object
  same_by_any_route t p h n c m f = ground arith

  -- A text that is JSON but no error, such as a number, is lost to the default message; in an `Error` it is
  -- kept.
  pub json_text_is_lost :
      (t : String)
      → parse_json t ≡ other
      → (parse_staff_error (text t) ≡ default_error) × ((parse_staff_error (failure t)).message ≡ t)
  unfolding parse_staff_error
  json_text_is_lost t h = ground arith

  -- Every error comes with a hint to show.
  pub every_error_has_hint : (e : Thrown) → is_some (parse_staff_error e).hint ≡ true
  unfolding parse_staff_error from_json from_object
  every_error_has_hint falsy = refl
  every_error_has_hint (text t) = ground arith
  every_error_has_hint (failure message) = ground arith
  every_error_has_hint (object p) = ground arith
  every_error_has_hint primitive = refl
