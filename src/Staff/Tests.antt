-- ===== src/Staff/Tests.antt =====
-- Examples of the staff manager.
use beidar_pos.Prelude.{◌≡◌, ◌≢◌, ◌⊎◌, refl, true, false, none, some, [], ◌∷◌}
use beidar_pos.Confirm.{closed}
use beidar_pos.Staff.{Staff, StaffState, empty_staff, staff_errors, is_username, is_pin}
use beidar_pos.Staff.Submit.{begin_submit, create, pin_error}
use beidar_pos.Staff.Sent.{IsSaved, IsValid, PinFits, submit_sends_checked}

abbrev sara : Staff
sara = record empty_staff { name = b'S' ∷ b'a' ∷ []; username = b's' ∷ b'_' ∷ b'1' ∷ [] }

abbrev page : StaffState
page = record {
  show_form = true;
  editing_staff = none;
  form_data = sara;
  pin = b'1' ∷ b'2' ∷ b'3' ∷ b'4' ∷ [];
  confirm_modal = closed;
  errors = [];
  error_hints = [];
  general_error = none;
  notices = [];
  refreshes = 0;
}

sara_is_sent :
    (begin_submit (λ _. false) "" page).0 ≡ some (create sara (b'1' ∷ b'2' ∷ b'3' ∷ b'4' ∷ []))
unfolding begin_submit staff_errors is_username is_pin pin_error
sara_is_sent = refl

submit_sends_checked_example :
    let (call, s') = begin_submit (λ _. false) "" page in
    (IsSaved page.editing_staff page.form_data page.pin call
      × IsValid (λ _. false) page.form_data
      × PinFits page.editing_staff page.pin
      × (s'.errors ≡ []))
    ⊎ ((call ≡ none)
        × (s'.errors ≢ [])
        × (¬ (IsValid (λ _. false) page.form_data × PinFits page.editing_staff page.pin)))
submit_sends_checked_example = submit_sends_checked (λ _. false) "" page
