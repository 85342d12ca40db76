-- ===== src/Confirm/Forced.antt =====
-- The dialogs that delete, of the pages that may force a deletion: what a page does as the user asks, confirms and
-- cancels and as the backend answers. A page gives its operations and the laws that its dialog keeps.
use mathlib.Core.Path.{subst}
use beidar_pos.Prelude.{
  String, ◌≡◌, sym, ◌⊎◌, inl, inr, Bool, true, false, ◌||◌, Option, none, some, List, [], ◌∷◌,
  arith, eq_iff, ◌===◌, if◌then◌else◌, Bool-cases,
}
use beidar_pos.Confirm.{ConfirmState, pressed}

-- What `performDelete` reads of an error: its text, and of the JSON in it the message, the hint and whether the
-- deletion may be forced.
pub record AppError : Type 0 where
  pub raw : String
  pub message : Option String
  pub hint : Option String
  pub allow_force : Bool

-- The operations of a page: its request to delete, its answers to the user's refusal and to the backend's, and what
-- else it does, which may use the dialog for something else.
pub record Deletion {ℓ} (S : Type ℓ) : Type ℓ where
  pub dialog : S → ConfirmState (String × Bool)
  pub ask : String → S → S
  pub cancel : S → S
  pub succeed : S → S
  pub refuse : String → AppError → S → S
  pub other : String → S → S

-- What the dialog does next after each of them.
pub record IsPlain {ℓ} {S : Type ℓ} (d : Deletion S) : Type ℓ where
  pub asks : (id : String) (s : S) → (d.dialog (d.ask id s)).on_confirm ≡ some (id, false)
  pub cancels : (s : S) → (d.dialog (d.cancel s)).on_confirm ≡ (d.dialog s).on_confirm
  pub succeeds : (s : S) → (d.dialog (d.succeed s)).on_confirm ≡ (d.dialog s).on_confirm
  pub refuses :
      (id : String) (e : AppError) (s : S)
      → (d.dialog (d.refuse id e s)).on_confirm
        ≡ (if e.allow_force then some (id, true) else (d.dialog s).on_confirm)
  pub others :
      (id : String) (s : S)
      → ((d.dialog (d.other id s)).on_confirm ≡ none)
        ⊎ ((d.dialog (d.other id s)).on_confirm ≡ (d.dialog s).on_confirm)

pub data Event : Type 0 where
  asked : String → Event
  cancelled button : Event
  succeeded : Event
  refused : String → AppError → Event
  did_other : String → Event

-- What is remembered of the calls that delete: those that were made, and the errors that allow to force the
-- deletion of something.
pub data Entry : Type 0 where
  called : String → Bool → Entry
  may_force : String → Entry

-- The entries, latest first.
pub record Machine {ℓ} (S : Type ℓ) : Type ℓ where
  pub state : S
  pub entries : List Entry

abbrev pub call_entries : Option (String × Bool) → List Entry → List Entry
call_entries none entries = entries
call_entries (some (id, force)) entries = called id force ∷ entries

-- The backend has answered a deletion of `id` by an error that allows to force it.
abbrev pub is_allowed : String → List Entry → Bool
is_allowed id [] = false
is_allowed id (may_force other ∷ entries) = other === id || is_allowed id entries
is_allowed id (called other force ∷ entries) = is_allowed id entries

-- Every forced call comes after such an answer for what it deletes.
abbrev pub IsWarranted : List Entry → Type 0
IsWarranted [] = Unit
IsWarranted (called id true ∷ entries) = (is_allowed id entries ≡ true) × IsWarranted entries
IsWarranted (_ ∷ entries) = IsWarranted entries

abbrev Covers : List Entry → Option (String × Bool) → Type 0
Covers entries none = Unit
Covers entries (some (id, false)) = Unit
Covers entries (some (id, true)) = is_allowed id entries ≡ true

Covers-cons :
    (e : Entry) (entries : List Entry) (deed : Option (String × Bool))
    → Covers entries deed
    → Covers (e ∷ entries) deed
Covers-cons e entries none c = tt
Covers-cons e entries (some (id, false)) c = tt
Covers-cons (called other force) entries (some (id, true)) c = c
Covers-cons (may_force other) entries (some (id, true)) c = ground (arith, c)

call-IsWarranted :
    (deed : Option (String × Bool)) (entries : List Entry)
    → Covers entries deed
    → IsWarranted entries
    → IsWarranted (call_entries deed entries)
call-IsWarranted none entries c w = w
call-IsWarranted (some (id, false)) entries c w = w
call-IsWarranted (some (id, true)) entries c w = (c, w)

call-Covers :
    (call deed : Option (String × Bool)) (entries : List Entry)
    → Covers entries deed
    → Covers (call_entries call entries) deed
call-Covers none deed entries c = c
call-Covers (some (id, force)) deed entries c = Covers-cons (called id force) entries deed c

pressed-Covers :
    (s : ConfirmState (String × Bool)) (entries : List Entry)
    → Covers entries s.on_confirm
    → Covers entries (pressed s)
unfolding pressed
pressed-Covers s entries c = elim (Bool-cases s.is_open) [
  | inl shown ↦ rw shown c
  | inr hidden ↦ rw hidden tt
]

module _ {ℓ} {S : Type ℓ} (d : Deletion S) where
  unfoldable pub step : Event → Machine S → Machine S
  step (asked id) m = record m { state = d.ask id m.state }
  step cancelled m = record m { state = d.cancel m.state }
  step button m = record m { entries = call_entries (pressed (d.dialog m.state)) m.entries }
  step succeeded m = record m { state = d.succeed m.state }
  step (refused id e) m = record {
    state = d.refuse id e m.state;
    entries = if e.allow_force then may_force id ∷ m.entries else m.entries;
  }
  step (did_other id) m = record m { state = d.other id m.state }

  unfoldable pub run : List Event → Machine S → Machine S
  run [] m = m
  run (e ∷ events) m = run events (step e m)

  abbrev IsSound : Machine S → Type 0
  IsSound m = Covers m.entries (d.dialog m.state).on_confirm × IsWarranted m.entries

  module _ (p : IsPlain d) where
    step-IsSound : (e : Event) (m : Machine S) → IsSound m → IsSound (step e m)
    unfolding step
    step-IsSound (asked id) m s = (rw (p.asks id m.state) tt, s.1)
    step-IsSound cancelled m s = (rw (p.cancels m.state) s.0, s.1)
    step-IsSound button m s = (
      call-Covers (pressed (d.dialog m.state)) (d.dialog m.state).on_confirm m.entries s.0,
      call-IsWarranted (pressed (d.dialog m.state)) m.entries
          (pressed-Covers (d.dialog m.state) m.entries s.0) s.1,
    )
    step-IsSound succeeded m s = (rw (p.succeeds m.state) s.0, s.1)
    step-IsSound (refused id e) m s = elim (Bool-cases e.allow_force) [
      | inl allowed ↦ rw (p.refuses id e m.state, allowed) (ground (arith, eq_iff id id), s.1)
      | inr not_allowed ↦ rw (p.refuses id e m.state, not_allowed) s
    ]
    step-IsSound (did_other id) m s = elim (p.others id m.state) [
      | inl dropped ↦ (rw dropped tt, s.1)
      | inr kept ↦ (rw kept s.0, s.1)
    ]

    run-IsSound : (events : List Event) (m : Machine S) → IsSound m → IsSound (run events m)
    unfolding run
    run-IsSound [] m s = s
    run-IsSound (e ∷ events) m s = run-IsSound events (step e m) (step-IsSound e m s)

    -- A page whose dialog has not been opened forces a deletion only where the backend allowed it before.
    pub run-IsWarranted :
        (s : S) (events : List Event)
        → (d.dialog s).on_confirm ≡ none
        → IsWarranted (run events (record { state = s; entries = [] })).entries
    run-IsWarranted s events fresh =
        (run-IsSound events (record { state = s; entries = [] })
          (subst (Covers []) (sym fresh) tt, tt)).1
