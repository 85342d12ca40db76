-- ===== src/Staff/Sent.antt =====
-- What the staff manager sends when its form is saved.
use mathlib.Core.Path.{subst}
use beidar_pos.Prelude.{
  sym, ◌==◌, ◌≤◌, ◌≡◌, ◌≢◌, refl, ap, ◌⊎◌, inl, inr, String, Bool, true, ◌||◌, Option, none, some,
  [], ◌∷◌, arith, ◌===◌, length,
}
use beidar_pos.Logger.Mask.{Text}
use beidar_pos.Staff.{Staff, StaffState, Errors, staff_errors, is_pin, is_username, is_role}
use beidar_pos.Staff.Submit.{
  Call, create, update, update_pin, after_update, pin_error, with_pin_error, call_of, submit_of,
  begin_submit,
}

-- What the checks ask of an employee.
pub record IsValid (is_email : String → Bool) (s : Staff) : Type 0 where
  pub name : 2 ≤ length s.name
  pub username : 3 ≤ length s.username
  pub characters : is_username s.username ≡ true
  pub role : is_role s.role ≡ true
  pub email : (is_email s.email || s.email === "") ≡ true

-- A new employee has a PIN of four digits; the PIN of another is changed to such a one, or stays.
abbrev pub PinFits : Option Staff → Text → Type 0
PinFits none pin = is_pin pin ≡ true
PinFits (some editing) pin = (pin ≡ []) ⊎ (is_pin pin ≡ true)

staff_errors-IsValid :
    (is_email : String → Bool) (no_role : String) (s : Staff)
    → staff_errors is_email no_role s ≡ []
    → IsValid is_email s
unfolding staff_errors
staff_errors-IsValid is_email no_role s h = record {
  name = ground (arith, h);
  username = ground (arith, h);
  characters = ground (arith, h);
  role = ground (arith, h);
  email = ground (arith, h);
}

valid-no_errors :
    (is_email : String → Bool) (no_role : String) (s : Staff)
    → IsValid is_email s
    → staff_errors is_email no_role s ≡ []
unfolding staff_errors
valid-no_errors is_email no_role s v =
    ground (arith, v.name, v.username, v.characters, v.role, v.email)

fits-no_error :
    (editing : Option Staff) (pin : Text) → PinFits editing pin → pin_error editing pin ≡ none
unfolding pin_error is_pin
fits-no_error none [] h = absurd (ground (arith, h))
fits-no_error (some editing) [] h = refl
fits-no_error none (c ∷ cs) h = ground (arith, h)
fits-no_error (some editing) (c ∷ cs) (inl h) = absurd (cc)
fits-no_error (some editing) (c ∷ cs) (inr h) = ground (arith, h)

nothing_found :
    (o : Option (String × String)) (errors : Errors)
    → o ≡ none
    → errors ≡ []
    → (with_pin_error o errors).0 ≡ []
nothing_found none errors h e = e
nothing_found (some (message, hint)) errors h e = absurd (cc)

pin_error-PinFits :
    (editing : Option Staff) (pin : Text) → pin_error editing pin ≡ none → PinFits editing pin
unfolding pin_error
pin_error-PinFits none [] h = absurd (cc)
pin_error-PinFits (some editing) [] h = inl refl
pin_error-PinFits none (c ∷ cs) h = ground (arith, h)
pin_error-PinFits (some editing) (c ∷ cs) h = inr (ground (arith, h))

no_errors :
    (o : Option (String × String)) (errors : Errors)
    → (with_pin_error o errors).0 ≡ []
    → (o ≡ none) × (errors ≡ [])
no_errors none errors h = (refl, h)
no_errors (some (message, hint)) [] h = absurd (cc)
no_errors (some (message, hint)) (e ∷ errors) h = absurd (cc)

-- What the form sends, given the errors that were found.
abbrev Sends : (Errors × Errors) → StaffState → Option Call × StaffState → Type 0
Sends found s (call, s') =
    ((found.0 ≡ []) × (call ≡ some (call_of s.editing_staff s.form_data s.pin)) × (s'.errors ≡ []))
    ⊎ ((call ≡ none) × (s'.errors ≢ []) × (found.0 ≢ []))

cons-≢ : (e : String × String) (errors : Errors) → (e ∷ errors) ≢ []
cons-≢ e errors h = absurd (ground (arith, ap length h))

submit_of-Sends : (found : Errors × Errors) (s : StaffState) → Sends found s (submit_of found s)
submit_of-Sends ([], hints) s = inl (refl, refl, refl)
submit_of-Sends ((field, message) ∷ errors, hints) s =
    inr (refl, cons-≢ (field, message) errors, cons-≢ (field, message) errors)

-- What the form asks of the backend for an employee that was typed: a new one is created with the PIN; another is
-- updated, and once that has succeeded the PIN is changed, if one was typed.
abbrev pub IsSaved : Option Staff → Staff → Text → Option Call → Type 0
IsSaved none form pin call = call ≡ some (create form pin)
IsSaved (some editing) form pin call =
    (call ≡ some (update form))
    × (((pin ≡ []) × (after_update form pin ≡ none))
        ⊎ ((is_pin pin ≡ true) × (after_update form pin ≡ some (update_pin form.id pin))))

is_pin-length : (pin : Text) → is_pin pin ≡ true → (length pin == 4) ≡ true
unfolding is_pin
is_pin-length pin h = ground (arith, h)

then_pin :
    (form : Staff) (pin : Text)
    → ((pin ≡ []) ⊎ (is_pin pin ≡ true))
    → ((pin ≡ []) × (after_update form pin ≡ none))
      ⊎ ((is_pin pin ≡ true) × (after_update form pin ≡ some (update_pin form.id pin)))
unfolding after_update
then_pin form pin (inl empty) = inl (empty, rw empty refl)
then_pin form pin (inr full) = inr (full, rw (is_pin-length pin full) refl)

call_of-IsSaved :
    (editing : Option Staff) (form : Staff) (pin : Text)
    → PinFits editing pin
    → IsSaved editing form pin (some (call_of editing form pin))
call_of-IsSaved none form pin fits = refl
call_of-IsSaved (some editing) form pin fits = (refl, then_pin form pin fits)

-- If the fields pass the checks and the PIN fits, the form saves the employee that was typed and shows no errors: a
-- new one is created with its PIN, of four digits; another one is updated, and then its PIN is changed if one was
-- typed, of four digits. Otherwise it sends nothing and shows at least one error.
pub submit_sends_checked :
    (is_email : String → Bool) (no_role : String) (s : StaffState)
    → let (call, s') = begin_submit is_email no_role s in
      (IsSaved s.editing_staff s.form_data s.pin call
        × IsValid is_email s.form_data
        × PinFits s.editing_staff s.pin
        × (s'.errors ≡ []))
      ⊎ ((call ≡ none)
          × (s'.errors ≢ [])
          × (¬ (IsValid is_email s.form_data × PinFits s.editing_staff s.pin)))
unfolding begin_submit
submit_sends_checked is_email no_role s =
    let pin = pin_error s.editing_staff s.pin in
    let errors = staff_errors is_email no_role s.form_data in
    elim (submit_of-Sends (with_pin_error pin errors) s) [
      | inr (nothing, shown, found) ↦ inr (
        nothing,
        shown,
        λ v. found (
            nothing_found pin errors (fits-no_error s.editing_staff s.pin v.1)
              (valid-no_errors is_email no_role s.form_data v.0)),
      )
      | inl (clean, sent, shown) ↦
          let (p, e) = no_errors pin errors clean in
          let fits = pin_error-PinFits s.editing_staff s.pin p in
          inl (
            subst (IsSaved s.editing_staff s.form_data s.pin) (sym sent)
                (call_of-IsSaved s.editing_staff s.form_data s.pin fits),
            staff_errors-IsValid is_email no_role s.form_data e,
            fits,
            shown,
          )
    ]
