-- ===== src/Staff/Submit.antt =====
-- `handleSubmit` of StaffManager.tsx: up to its first call, from an answer to the next call, and to its end.
use Prim.Native.String.{◌++◌}
use mathlib.Core.List.{◌++◌ as list_append}
use beidar_pos.Prelude.{
  String, Bool, Option, none, some, [], ◌∷◌, ◌==◌, ◌===◌, if◌then◌else◌, length, or_default,
}
use beidar_pos.Store.{truthy, Parsed}
use beidar_pos.Logger.Mask.{Text}
use beidar_pos.StaffError.{StaffError, Payload, Thrown, parse_staff_error, get_error_field}
use beidar_pos.Staff.{
  Staff, StaffState, Errors, success, error, set_error, staff_errors, is_pin, notify, refresh,
  reset_form,
}

pub data Call : Type 0 where
  update : Staff → Call
  update_pin : String → Text → Call
  create : Staff → Text → Call

-- The error of the PIN and its hint, if it has one.
unfoldable pub pin_error : Option Staff → Text → Option (String × String)
pin_error none [] = some (
  "\u{631}\u{645}\u{632} PIN \u{645}\u{637}\u{644}\u{648}\u{628} \u{644}\u{644}\u{645}\u{648}\u{638}\u{641} \u{627}\u{644}\u{62c}\u{62f}\u{64a}\u{62f}",
  "\u{623}\u{62f}\u{62e}\u{644} 4 \u{623}\u{631}\u{642}\u{627}\u{645} \u{644}\u{644}\u{62f}\u{62e}\u{648}\u{644}",
)
pin_error (some editing) [] = none
pin_error editing (c ∷ cs) =
    if is_pin (c ∷ cs)
    then none
    else some (
      "\u{631}\u{645}\u{632} PIN \u{64a}\u{62c}\u{628} \u{623}\u{646} \u{64a}\u{62a}\u{643}\u{648}\u{646} \u{645}\u{646} 4 \u{623}\u{631}\u{642}\u{627}\u{645}",
      "\u{623}\u{62f}\u{62e}\u{644} 4 \u{623}\u{631}\u{642}\u{627}\u{645} \u{641}\u{642}\u{637}، \u{62a}\u{62c}\u{646}\u{628} \u{627}\u{644}\u{623}\u{631}\u{642}\u{627}\u{645} \u{627}\u{644}\u{645}\u{62a}\u{633}\u{644}\u{633}\u{644}\u{629} (1234) \u{623}\u{648} \u{627}\u{644}\u{645}\u{62a}\u{643}\u{631}\u{631}\u{629} (0000)",
    )

-- The errors and the hints of the form: those of the fields, then that of the PIN.
abbrev pub with_pin_error : Option (String × String) → Errors → Errors × Errors
with_pin_error none errors = (errors, [])
with_pin_error (some (message, hint)) errors =
    (list_append errors (("pin", message) ∷ []), ("pin", hint) ∷ [])

-- The call where the form has no errors. `isEditing` is the same as in the render.
abbrev pub call_of : Option Staff → Staff → Text → Call
call_of none form pin = create form pin
call_of (some editing) form pin = update form

abbrev pub submit_of : Errors × Errors → StaffState → Option Call × StaffState
submit_of ([], hints) s = (
  some (call_of s.editing_staff s.form_data s.pin),
  record s { errors = []; error_hints = []; general_error = none },
)
submit_of ((field, message) ∷ errors, hints) s = (
  none,
  notify
      (if message === ""
        then "\u{64a}\u{631}\u{62c}\u{649} \u{62a}\u{635}\u{62d}\u{64a}\u{62d} \u{627}\u{644}\u{623}\u{62e}\u{637}\u{627}\u{621} \u{641}\u{64a} \u{627}\u{644}\u{646}\u{645}\u{648}\u{630}\u{62c}"
        else "\u{62e}\u{637}\u{623}: " ++ message)
      error
      (record s {
        errors = (field, message) ∷ errors;
        error_hints = hints;
        general_error = some (record {
          message =
              "\u{64a}\u{631}\u{62c}\u{649} \u{62a}\u{635}\u{62d}\u{64a}\u{62d} \u{627}\u{644}\u{623}\u{62e}\u{637}\u{627}\u{621} \u{641}\u{64a} \u{627}\u{644}\u{646}\u{645}\u{648}\u{630}\u{62c}";
          hint =
              some
                "\u{62a}\u{62d}\u{642}\u{642} \u{645}\u{646} \u{627}\u{644}\u{62d}\u{642}\u{648}\u{644} \u{627}\u{644}\u{645}\u{645}\u{64a}\u{632}\u{629} \u{628}\u{627}\u{644}\u{644}\u{648}\u{646} \u{627}\u{644}\u{623}\u{62d}\u{645}\u{631} \u{648}\u{635}\u{62d}\u{62d} \u{627}\u{644}\u{628}\u{64a}\u{627}\u{646}\u{627}\u{62a} \u{627}\u{644}\u{645}\u{62f}\u{62e}\u{644}\u{629}";
        });
      }),
)

module _ (is_email : String → Bool) (no_role : String) where
  unfoldable pub begin_submit : StaffState → Option Call × StaffState
  begin_submit s =
      submit_of
        (with_pin_error (pin_error s.editing_staff s.pin)
          (staff_errors is_email no_role s.form_data))
        s

-- What follows the update of an employee: the new PIN, if there is one.
unfoldable pub after_update : Staff → Text → Option Call
after_update form pin = if length pin == 4 then some (update_pin form.id pin) else none

unfoldable pub updated : StaffState → StaffState
updated s = refresh (
    reset_form (
      notify
        "\u{62a}\u{645} \u{62a}\u{62d}\u{62f}\u{64a}\u{62b} \u{627}\u{644}\u{645}\u{648}\u{638}\u{641} \u{628}\u{646}\u{62c}\u{627}\u{62d}"
        success s))

unfoldable pub created : StaffState → StaffState
created s = refresh (
    reset_form (
      notify
        "\u{62a}\u{645} \u{625}\u{636}\u{627}\u{641}\u{629} \u{627}\u{644}\u{645}\u{648}\u{638}\u{641} \u{628}\u{646}\u{62c}\u{627}\u{62d}"
        success s))

-- The PIN was refused, after the employee was updated; the text is the message of an `Error`.
unfoldable pub pin_refused : Option String → StaffState → StaffState
pin_refused message s = record s {
  general_error = some (record {
    message =
        or_default message
          "\u{641}\u{634}\u{644} \u{62a}\u{62d}\u{62f}\u{64a}\u{62b} \u{631}\u{645}\u{632} PIN";
    hint =
        some
          "\u{62a}\u{623}\u{643}\u{62f} \u{645}\u{646} \u{623}\u{646} \u{627}\u{644}\u{631}\u{645}\u{632} \u{64a}\u{62a}\u{643}\u{648}\u{646} \u{645}\u{646} 4 \u{623}\u{631}\u{642}\u{627}\u{645} \u{648}\u{644}\u{64a}\u{633} \u{636}\u{639}\u{64a}\u{641}\u{627}ً";
  });
}

-- `staffError.field || getErrorField(staffError.code)`, if it is not empty.
abbrev pub error_field : StaffError → Option String
error_field e = elim (truthy e.field) [
  | some field ↦ some field
  | none ↦ truthy (get_error_field e.code)
]

abbrev pub mark : Option String → StaffError → StaffState → StaffState
mark none e s = s
mark (some field) e s = record s {
  errors = set_error field e.message s.errors;
  error_hints = set_error field (or_default e.hint "") s.error_hints;
}

abbrev pub show_error : StaffError → StaffState → StaffState
show_error e s = record (mark (error_field e) e s) {
  general_error = some (record {
    message = e.message;
    hint = some (
        or_default (truthy e.hint)
          "\u{62d}\u{627}\u{648}\u{644} \u{645}\u{631}\u{629} \u{623}\u{62e}\u{631}\u{649}");
  });
}

module _ (parse_json : String → Parsed Payload) where
  -- The employee was not saved.
  unfoldable pub not_saved : Thrown → StaffState → StaffState
  not_saved thrown s = show_error (parse_staff_error parse_json thrown) s
