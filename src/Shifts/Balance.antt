-- ===== src/Shifts/Balance.antt =====
-- What the owner of the component knows of the shift, and what is said of its balance.
use beidar_pos.Prelude.{
  String, ◌≡◌, refl, ◌∙◌, ap, Option, none, some, List, [], ◌∷◌, arith, if◌then◌else◌,
}
use beidar_pos.Prelude.Int.{ℤ, pos, ◌-ℤ◌, ltb_ℤ}
use beidar_pos.Shifts.{
  Shift, ShiftState, Kind, success, error, Reply, done, failed, Event, shift_fetched, opened,
  closed, moved, close_asked, refused_to_open, step, run, initial, closing_notice, finish_close,
  open_close_modal, fetched, finish_movement, finish_open, begin_open,
}

-- The last shift that the owner was told of, none where it was told nothing yet.
abbrev pub last_told : ShiftState → Option Shift
last_told s = elim s.told [ [] ↦ none | ◌∷◌ shift rest ↦ shift ]

fetched-keeps :
    (reply : Reply (Option Shift)) (s : ShiftState)
    → last_told s ≡ s.active_shift
    → last_told (fetched reply s) ≡ (fetched reply s).active_shift
unfolding fetched
fetched-keeps (done shift) s h = refl
fetched-keeps (failed message) s h = h

step-keeps :
    (e : Event) (s : ShiftState)
    → last_told s ≡ s.active_shift
    → last_told (step e s) ≡ (step e s).active_shift
unfolding step finish_movement finish_open finish_close open_close_modal begin_open
step-keeps (shift_fetched reply) s h = fetched-keeps reply s h
step-keeps (opened (done shift)) s h = refl
step-keeps (opened (failed message)) s h = h
step-keeps (closed shown (done shift)) s h = refl
step-keeps (closed shown (failed message)) s h = h
step-keeps (moved kind (done tt) again) s h = fetched-keeps again s h
step-keeps (moved kind (failed message) again) s h = h
step-keeps (close_asked shift) s h = h
step-keeps refused_to_open s h = h

run-keeps :
    (events : List Event) (s : ShiftState)
    → last_told s ≡ s.active_shift
    → last_told (run events s) ≡ (run events s).active_shift
unfolding run
run-keeps [] s h = h
run-keeps (e ∷ events) s h = run-keeps events (step e s) (step-keeps e s h)

-- Whatever answers arrive in whatever order, failures included, the owner of the component knows the shift
-- that the component shows.
pub owner_knows_shift :
    (events : List Event) → last_told (run events initial) ≡ (run events initial).active_shift
owner_knows_shift events = run-keeps events initial refl

by_variance :
    (shown : ℤ → String) (shift : Shift)
    → (closing_notice shown (some shift)).1
      ≡ (if ltb_ℤ shift.variance (pos 0) then error else success)
unfolding closing_notice
by_variance shown shift = ground arith

balanced :
    (shown : ℤ → String) (shift : Shift)
    → shift.variance ≡ pos 0
    → closing_notice shown (some shift) ≡ closing_notice shown none
unfolding closing_notice
balanced shown shift h = ground (arith, h)

ltb_ℤ-sub : (a b : ℤ) → ltb_ℤ (a -ℤ b) (pos 0) ≡ ltb_ℤ a b
unfolding ◌-ℤ◌
ltb_ℤ-sub a b = ground arith

sub-same : (a : ℤ) → a -ℤ a ≡ pos 0
unfolding ◌-ℤ◌
sub-same a = ground arith

-- What is said when a shift is closed with an amount.
abbrev pub verdict : (Shift → ℤ → Shift) → (ℤ → String) → Shift → ℤ → String × Kind
verdict close shown shift counted = closing_notice shown (some (close shift counted))

-- The backend's answer to a closing: its variance is what was counted less what was expected.
module _ (close : Shift → ℤ → Shift)
    (counts : (shift : Shift) (counted : ℤ)
      → (close shift counted).variance ≡ counted -ℤ shift.expected_balance) where
  -- A closing is reported as an error exactly when less is counted than is expected, and the amount that the
  -- window for closing proposes is always taken for balanced, with no amount said.
  pub closing_is_judged :
      (shown : ℤ → String) (shift : Shift) (counted : ℤ) (s : ShiftState)
      → ((verdict close shown shift counted).1
          ≡ (if ltb_ℤ counted shift.expected_balance then error else success))
        × (verdict close shown shift (open_close_modal shift s).closing_balance
            ≡ closing_notice shown none)
  unfolding open_close_modal
  closing_is_judged shown shift counted s = (
    by_variance shown (close shift counted)
        ∙ ap (λ v. if ltb_ℤ v (pos 0) then error else success) (counts shift counted)
        ∙ ap (λ b. if b then error else success) (ltb_ℤ-sub counted shift.expected_balance),
    balanced shown (close shift shift.expected_balance)
        (counts shift shift.expected_balance ∙ sub-same shift.expected_balance),
  )
