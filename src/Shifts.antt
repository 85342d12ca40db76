-- ===== src/Shifts.antt =====
-- The shift of a cashier: frontend/src/components/ShiftManager.tsx. A handler that awaits the backend is two
-- functions, up to the call and from its answer on.
pub mod Balance
mod Tests
use Prim.Native.String.{◌++◌}
use beidar_pos.Prelude.{
  String, Bool, true, false, Option, none, some, List, [], ◌∷◌, ◌===◌, if◌then◌else◌, or_default,
}
use beidar_pos.Prelude.Int.{ℤ, pos, ◌-ℤ◌, ltb_ℤ, leb_ℤ, eqb_ℤ}
use beidar_pos.Queries.{Invalidation, all_data, shifts}

-- The fields of a shift that the component reads.
pub record Shift : Type 0 where
  pub id : String
  pub opening_balance : ℤ
  pub closing_balance : ℤ
  pub expected_balance : ℤ
  pub variance : ℤ

pub data Movement : Type 0 where
  cash_in cash_out : Movement

pub data Kind : Type 0 where
  success error : Kind

-- The calls of `api.shift`: the shift, the identifier and the name of the staff member, and the amount.
pub data Call : Type 0 where
  open_shift : String → String → ℤ → Call
  close_shift : String → ℤ → String → Call
  add_movement : String → Movement → String → String → String → ℤ → Call

-- The state; `told` holds the shifts that the owner of the component was told of, notices and told latest first.
pub record ShiftState : Type 0 where
  pub active_shift : Option Shift
  pub loading : Bool
  pub show_open_modal : Bool
  pub show_close_modal : Bool
  pub show_movement_modal : Bool
  pub opening_balance : ℤ
  pub closing_balance : ℤ
  pub close_note : String
  pub movement_type : Movement
  pub movement_amount : ℤ
  pub movement_reason : String
  pub notices : List (String × Kind)
  pub told : List (Option Shift)
  pub invalidated : List Invalidation

abbrev pub initial : ShiftState
initial = record {
  active_shift = none;
  loading = true;
  show_open_modal = false;
  show_close_modal = false;
  show_movement_modal = false;
  opening_balance = pos 0;
  closing_balance = pos 0;
  close_note = "";
  movement_type = cash_in;
  movement_amount = pos 0;
  movement_reason = "";
  notices = [];
  told = [];
  invalidated = [];
}

-- The answer of a call: its result, or an exception with the message of an `Error`.
pub data Reply {ℓ} (A : Type ℓ) : Type ℓ where
  done : A → Reply A
  failed : Option String → Reply A

abbrev pub notify : String → Kind → ShiftState → ShiftState
notify message kind s = record s { notices = (message, kind) ∷ s.notices }

-- Sets the active shift and tells the owner.
abbrev pub set_shift : Option Shift → ShiftState → ShiftState
set_shift shift s = record s { active_shift = shift; told = shift ∷ s.told }

-- `invalidateShifts` and `invalidateAllData`
abbrev pub invalidate : ShiftState → ShiftState
invalidate s = record s { invalidated = all_data ∷ shifts ∷ s.invalidated }

-- `fetchActiveShift` from the answer on.
unfoldable pub fetched : Reply (Option Shift) → ShiftState → ShiftState
fetched (done shift) s = record (set_shift shift s) { loading = false }
fetched (failed message) s = record s { loading = false }

unfoldable pub begin_open : Option (String × String) → ShiftState → Option Call × ShiftState
begin_open none s = (
  none,
  notify
      "\u{64a}\u{62c}\u{628} \u{62a}\u{633}\u{62c}\u{64a}\u{644} \u{627}\u{644}\u{62f}\u{62e}\u{648}\u{644} \u{623}\u{648}\u{644}\u{627}ً"
      error s,
)
begin_open (some (id, name)) s = (some (open_shift id name s.opening_balance), s)

unfoldable pub finish_open : Reply Shift → ShiftState → ShiftState
finish_open (done shift) s =
    notify
      "\u{62a}\u{645} \u{641}\u{62a}\u{62d} \u{627}\u{644}\u{634}\u{641}\u{62a} \u{628}\u{646}\u{62c}\u{627}\u{62d}"
      success
      (invalidate
        (record (set_shift (some shift) s) { show_open_modal = false; opening_balance = pos 0 }))
finish_open (failed message) s =
    notify
      (or_default message
        "\u{641}\u{634}\u{644} \u{641}\u{62a}\u{62d} \u{627}\u{644}\u{634}\u{641}\u{62a}")
      error s

-- A press of the button that opens the window for closing.
unfoldable pub open_close_modal : Shift → ShiftState → ShiftState
open_close_modal shift s = record s {
  closing_balance = shift.expected_balance;
  show_close_modal = true;
}

unfoldable pub begin_close : ShiftState → Option Call
begin_close s = elim s.active_shift [
  | none ↦ none
  | some shift ↦ some (close_shift shift.id s.closing_balance s.close_note)
]

-- What is said of the variance of a closed shift; `shown` is `formatCurrency` of its size.
unfoldable pub closing_notice : (ℤ → String) → Option Shift → String × Kind
closing_notice shown none = (
  "\u{62a}\u{645} \u{625}\u{63a}\u{644}\u{627}\u{642} \u{627}\u{644}\u{634}\u{641}\u{62a} \u{628}\u{646}\u{62c}\u{627}\u{62d}",
  success,
)
closing_notice shown (some shift) =
    if eqb_ℤ shift.variance (pos 0)
    then (
      "\u{62a}\u{645} \u{625}\u{63a}\u{644}\u{627}\u{642} \u{627}\u{644}\u{634}\u{641}\u{62a} \u{628}\u{646}\u{62c}\u{627}\u{62d}",
      success,
    )
    else if ltb_ℤ (pos 0) shift.variance
    then (
      "\u{62a}\u{645} \u{625}\u{63a}\u{644}\u{627}\u{642} \u{627}\u{644}\u{634}\u{641}\u{62a}. \u{641}\u{627}\u{626}\u{636}: "
          ++ shown shift.variance,
      success,
    )
    else (
      "\u{62a}\u{645} \u{625}\u{63a}\u{644}\u{627}\u{642} \u{627}\u{644}\u{634}\u{641}\u{62a}. \u{639}\u{62c}\u{632}: "
          ++ shown (pos 0 -ℤ shift.variance),
      error,
    )

unfoldable pub finish_close : (ℤ → String) → Reply (Option Shift) → ShiftState → ShiftState
finish_close shown (done shift) s =
    let t : ShiftState = invalidate (record (set_shift none s) {
      show_close_modal = false;
      closing_balance = pos 0;
      close_note = "";
    }) in
    record t { notices = closing_notice shown shift ∷ t.notices }
finish_close shown (failed message) s =
    notify
      (or_default message
        "\u{641}\u{634}\u{644} \u{625}\u{63a}\u{644}\u{627}\u{642} \u{627}\u{644}\u{634}\u{641}\u{62a}")
      error s

unfoldable pub begin_movement : Option (String × String) → ShiftState → Option Call
begin_movement none s = none
begin_movement (some (id, name)) s = elim s.active_shift [
  | none ↦ none
  | some shift ↦
      if leb_ℤ s.movement_amount (pos 0)
      then none
      else some (add_movement shift.id s.movement_type s.movement_reason id name s.movement_amount)
]

-- From the answer on, with that of the shift that is fetched again. The fetch sets `loading` meanwhile. `kind`
-- is the movement of the render that the handler belongs to.
unfoldable pub finish_movement :
    Movement → Reply {0} Unit → Reply (Option Shift) → ShiftState → ShiftState
finish_movement kind (done tt) again s =
    notify
      (elim kind [
        | cash_in ↦
            "\u{62a}\u{645} \u{625}\u{636}\u{627}\u{641}\u{629} \u{627}\u{644}\u{646}\u{642}\u{62f}"
        | cash_out ↦ "\u{62a}\u{645} \u{633}\u{62d}\u{628} \u{627}\u{644}\u{646}\u{642}\u{62f}"
      ])
      success
      (invalidate (record (fetched again s) {
        show_movement_modal = false;
        movement_amount = pos 0;
        movement_reason = "";
      }))
finish_movement kind (failed message) again s =
    notify
      (or_default message
        "\u{641}\u{634}\u{644} \u{62a}\u{633}\u{62c}\u{64a}\u{644} \u{627}\u{644}\u{62d}\u{631}\u{643}\u{629}")
      error s

-- What may happen to the component.
pub data Event : Type 0 where
  shift_fetched : Reply (Option Shift) → Event
  opened : Reply Shift → Event
  closed : (ℤ → String) → Reply (Option Shift) → Event
  moved : Movement → Reply {0} Unit → Reply (Option Shift) → Event
  close_asked : Shift → Event
  refused_to_open : Event

unfoldable pub step : Event → ShiftState → ShiftState
unfolding fetched finish_open finish_close finish_movement open_close_modal begin_open
step (shift_fetched reply) s = fetched reply s
step (opened reply) s = finish_open reply s
step (closed shown reply) s = finish_close shown reply s
step (moved kind reply again) s = finish_movement kind reply again s
step (close_asked shift) s = open_close_modal shift s
step refused_to_open s = (begin_open none s).1

unfoldable pub run : List Event → ShiftState → ShiftState
run [] s = s
run (e ∷ events) s = run events (step e s)
