-- ===== src/PinModal.antt =====
-- The dialog that asks for the manager's PIN: frontend/src/components/PinModal.tsx. A handler reads what was
-- rendered; a key or a click of the dialog is rendered before the next one.
mod Tests
use beidar_pos.Prelude.{
  ℕ, ◌+◌, ◌≤◌, ◌≡◌, refl, Bool, true, false, not, ◌&&◌, ◌||◌, Option, none, some, List, [], ◌∷◌,
  ◌++◌, arith, ltb, leb, ◌==◌, if◌then◌else◌, length, take, length-append, length-take, is_some,
}

-- A PIN is its characters; `accepted` counts the calls of `onSuccess`.
pub record PinState : Type 0 where
  pub is_open : Bool
  pub pin : List ℕ
  pub error : Bool
  pub loading : Bool
  pub accepted : ℕ

-- The effect of a change of `isOpen`.
unfoldable pub set_open : Bool → PinState → PinState
set_open true s = record s { is_open = true; pin = []; error = false; loading = false }
set_open false s = record s { is_open = false }

unfoldable pub handle_number_click : ℕ → PinState → PinState
handle_number_click digit s =
    if ltb (length s.pin) 4 then record s { pin = s.pin ++ (digit ∷ []); error = false } else s

-- `prev.slice(0, -1)`
abbrev without_last : List ℕ → List ℕ
without_last [] = []
without_last (d ∷ []) = []
without_last (d ∷ e ∷ ds) = d ∷ without_last (e ∷ ds)

unfoldable pub handle_delete : PinState → PinState
handle_delete s = record s { pin = without_last s.pin }

abbrev is_digit : ℕ → Bool
is_digit c = leb b'0' c && leb c b'9'

abbrev all_digits : List ℕ → Bool
all_digits [] = true
all_digits (c ∷ cs) = is_digit c && all_digits cs

-- The hidden input: only digits are taken, and the first four of them.
unfoldable pub handle_change : List ℕ → PinState → PinState
handle_change typed s = if all_digits typed then record s { pin = take 4 typed } else s

-- `handleSubmit` up to the call: the PIN that is sent, if one is.
unfoldable pub begin_submit : PinState → PinState × Option (List ℕ)
begin_submit s = if s.loading then (s, none) else (record s { loading = true }, some s.pin)

-- The answer of `verifyPin`.
pub data Reply : Type 0 where
  valid invalid failed : Reply

unfoldable pub finish_submit : Reply → PinState → PinState
finish_submit valid s = record s { accepted = s.accepted + 1; loading = false }
finish_submit invalid s = record s { error = true; pin = []; loading = false }
finish_submit failed s = record s { error = true; loading = false }

-- What can happen to a mounted dialog.
pub data Event : Type 0 where
  opened : Bool → Event
  clicked : ℕ → Event
  deleted cleared : Event
  changed : List ℕ → Event
  submitted : Event
  answered : Reply → Event

unfoldable pub after : Event → PinState → PinState
unfolding set_open handle_number_click handle_delete handle_change begin_submit finish_submit
after (opened b) s = set_open b s
after (clicked digit) s = handle_number_click digit s
after deleted s = handle_delete s
after cleared s = record s { pin = [] }
after (changed typed) s = handle_change typed s
after submitted s = (begin_submit s).0
after (answered r) s = finish_submit r s

unfoldable pub run : List Event → PinState → PinState
run [] s = s
run (e ∷ events) s = run events (after e s)

abbrev pub mounted : PinState
mounted = record { is_open = false; pin = []; error = false; loading = false; accepted = 0 }

length-without_last : (ds : List ℕ) → length (without_last ds) ≤ length ds
length-without_last [] = omega arith
length-without_last (d ∷ []) = omega arith
length-without_last (d ∷ e ∷ ds) = omega (arith, length-without_last (e ∷ ds))

after-short : (e : Event) (s : PinState) → length s.pin ≤ 4 → length (after e s).pin ≤ 4
unfolding after
after-short (opened true) s h = omega arith
after-short (opened false) s h = h
after-short (clicked digit) s h = ground (arith, length-append {0} s.pin (digit ∷ []))
after-short deleted s h = omega (arith, h, length-without_last s.pin)
after-short cleared s h = omega arith
after-short (changed typed) s h = ground (arith, length-take {0} 4 typed)
after-short submitted s h = ground arith
after-short (answered valid) s h = h
after-short (answered invalid) s h = omega arith
after-short (answered failed) s h = h

run-short : (events : List Event) (s : PinState) → length s.pin ≤ 4 → length (run events s).pin ≤ 4
unfolding run
run-short [] s h = h
run-short (e ∷ events) s h = run-short events (after e s) (after-short e s h)

-- After any events of a mounted dialog, a submission sends a PIN of at most four characters or nothing, and
-- nothing while an answer is awaited.
pub submits_at_most_four :
    (events : List Event)
    → let s = run events mounted in
      ((begin_submit s).1 ≡ (if s.loading then none else some s.pin)) × (length s.pin ≤ 4)
unfolding begin_submit
submits_at_most_four events = (ground arith, run-short events mounted (omega arith))
