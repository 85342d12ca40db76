-- ===== src/Staff/Deletion.antt =====
-- How StaffManager.tsx deletes employees.
use Prim.Native.String.{◌++◌}
use beidar_pos.Prelude.{
  String, ◌≡◌, refl, inl, inr, true, false, none, some, List, [], if◌then◌else◌, or_default,
  Bool-cases,
}
use beidar_pos.Store.{truthy, Parsed}
use beidar_pos.StaffError.{StaffError, Payload, text, parse_staff_error}
use beidar_pos.Confirm.{open_confirm, close_confirm}
use beidar_pos.Confirm.Forced.{
  AppError, Deletion, IsPlain, Event, run, IsWarranted, run-IsWarranted,
}
use beidar_pos.Staff.{StaffState, success, error, notify, refresh, reset_form}

unfoldable pub handle_delete : String → StaffState → StaffState
handle_delete id s = record s {
  confirm_modal =
      open_confirm "\u{62d}\u{630}\u{641} \u{627}\u{644}\u{645}\u{648}\u{638}\u{641}"
        "\u{647}\u{644} \u{623}\u{646}\u{62a} \u{645}\u{62a}\u{623}\u{643}\u{62f} \u{645}\u{646} \u{62d}\u{630}\u{641} \u{647}\u{630}\u{627} \u{627}\u{644}\u{645}\u{648}\u{638}\u{641}\u{61f} \u{644}\u{627} \u{64a}\u{645}\u{643}\u{646} \u{627}\u{644}\u{62a}\u{631}\u{627}\u{62c}\u{639} \u{639}\u{646} \u{647}\u{630}\u{627} \u{627}\u{644}\u{625}\u{62c}\u{631}\u{627}\u{621}."
        "error" (some "\u{62d}\u{630}\u{641}") (id, false) s.confirm_modal;
}

unfoldable pub staff_deleted : StaffState → StaffState
staff_deleted s =
    let u : StaffState = refresh (
      notify
        "\u{62a}\u{645} \u{62d}\u{630}\u{641} \u{627}\u{644}\u{645}\u{648}\u{638}\u{641} \u{628}\u{646}\u{62c}\u{627}\u{62d}"
        success s) in
    record u { confirm_modal = close_confirm u.confirm_modal }

module _ (parse_json : String → Parsed Payload) where
  -- The error, if it does not allow to force the deletion, is read as those of the form are; it is thrown as a text.
  unfoldable pub staff_not_deleted : String → AppError → StaffState → StaffState
  staff_not_deleted id e s =
      if e.allow_force
      then record s {
        confirm_modal =
            open_confirm
              "\u{62a}\u{639}\u{630}\u{631} \u{627}\u{644}\u{62d}\u{630}\u{641} - \u{645}\u{637}\u{644}\u{648}\u{628} \u{62a}\u{623}\u{643}\u{64a}\u{62f} \u{625}\u{636}\u{627}\u{641}\u{64a}"
              (or_default e.message "undefined" ++ "\n\n" ++ or_default e.hint "") "warning"
              (some "\u{62d}\u{630}\u{641} \u{642}\u{633}\u{631}\u{64a} (Force Delete)") (id, true)
              s.confirm_modal;
      }
      else (let shown : StaffError = parse_staff_error parse_json (text e.raw) in
          let u : StaffState = notify shown.message error s in
          record u {
            general_error = some (record {
              message = shown.message;
              hint = some (
                  or_default (truthy shown.hint)
                    "\u{62d}\u{627}\u{648}\u{644} \u{645}\u{631}\u{629} \u{623}\u{62e}\u{631}\u{649}");
            });
            confirm_modal = close_confirm u.confirm_modal;
          })

  unfoldable pub staff_deletion : Deletion StaffState
  staff_deletion = record {
    dialog = λ s. s.confirm_modal;
    ask = handle_delete;
    cancel = λ s. record s { confirm_modal = close_confirm s.confirm_modal };
    succeed = staff_deleted;
    refuse = staff_not_deleted;
    other = λ id s. reset_form s;
  }

  refuses-plain :
      (id : String) (e : AppError) (s : StaffState)
      → (staff_not_deleted id e s).confirm_modal.on_confirm
        ≡ (if e.allow_force then some (id, true) else s.confirm_modal.on_confirm)
  unfolding staff_not_deleted open_confirm close_confirm
  refuses-plain id e s = elim (Bool-cases e.allow_force) [
    | inl allowed ↦ rw allowed refl
    | inr not_allowed ↦ rw not_allowed refl
  ]

  staff_deletion-IsPlain : IsPlain staff_deletion
  unfolding staff_deletion handle_delete staff_deleted reset_form open_confirm close_confirm
  staff_deletion-IsPlain = record {
    asks = λ id s. refl;
    cancels = λ s. refl;
    succeeds = λ s. refl;
    refuses = refuses-plain;
    others = λ id s. inr refl;
  }

  -- An employee's deletion is forced only after the backend has answered one of the same employee by an error that
  -- allows it, whatever the user asks, confirms and cancels and in whatever order the answers arrive, from a dialog
  -- that has not been opened.
  pub staff_forced_only_if_allowed :
      (s : StaffState) (events : List Event)
      → s.confirm_modal.on_confirm ≡ none
      → IsWarranted (run staff_deletion events (record { state = s; entries = [] })).entries
  unfolding staff_deletion
  staff_forced_only_if_allowed = run-IsWarranted staff_deletion staff_deletion-IsPlain
