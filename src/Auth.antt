-- ===== src/Auth.antt =====
-- Sessions, permissions and the idle timeout of the frontend: frontend/src/core/AuthContext.tsx. The
-- backend's answers are arguments; times are milliseconds, timeouts whole minutes.
mod Tests
pub mod Access
pub mod Idle
use beidar_pos.Prelude.{
  ℕ, ◌≡◌, String, Bool, true, false, not, ◌&&◌, ◌||◌, Option, none, some, List, [], ◌∷◌, ltb, leb,
  ◌===◌, if◌then◌else◌, or_default, is_some, any,
}
use beidar_pos.Prelude.Int.{ℤ, pos, ◌-ℤ◌, ltb_ℤ, leb_ℤ, max_ℤ, floor_div}
use beidar_pos.Store.{Storage, set_item, remove_item, truthy, Parsed, throws, other, value}

abbrev pub default_idle_timeout : ℤ
default_idle_timeout = pos 60

abbrev pub warning_before_logout : ℤ
warning_before_logout = pos 5

abbrev pub storage_key : String
storage_key = "beidar_auth_session"

abbrev pub last_activity_key : String
last_activity_key = "beidar_last_activity"

abbrev pub last_staff_key : String
last_staff_key = "beidar_last_staff_id"

-- The fields of a staff member that the context reads.
pub record Staff : Type 0 where
  pub id : String
  pub name : String
  pub must_change_pin : Bool
  pub role : String

pub record AuthResult : Type 0 where
  pub success : Bool
  pub staff : Option Staff
  pub permissions : Option (List String)
  pub require_pin_change : Option Bool

-- How a call of the backend ends: its promise is rejected, or it gives nothing or a result.
pub data Reply : Type 0 where
  rejected : Reply
  nothing : Reply
  result : AuthResult → Reply

-- `JSON` and the conversions of numbers, at the types that the context uses them. A session that is parsed
-- gives the identifier of its user, empty where missing; `none` of `parse_int` is NaN.
pub record Codec : Type 0 where
  pub stringify_session : Staff → List String → String
  pub parse_session : String → Parsed String
  pub number_to_string : ℕ → String
  pub parse_int : String → Option ℕ

-- What the idle check relies on: a time that was written is read back, and is no empty text.
pub record IsRead (c : Codec) (n : ℕ) : Type 0 where
  pub number_back : c.parse_int (c.number_to_string n) ≡ some n
  pub number_text : truthy (some (c.number_to_string n)) ≡ some (c.number_to_string n)

-- The React state, with the texts that are stored. `none` of the remaining minutes is NaN.
pub record AuthState : Type 0 where
  pub current_user : Option Staff
  pub permissions : List String
  pub require_pin_change : Bool
  pub session_timeout_warning : Bool
  pub idle_minutes_remaining : Option ℤ
  pub idle_timeout : ℤ
  pub storage : Storage

unfoldable pub initial : Storage → AuthState
initial st = record {
  current_user = none;
  permissions = [];
  require_pin_change = false;
  session_timeout_warning = false;
  idle_minutes_remaining = some default_idle_timeout;
  idle_timeout = default_idle_timeout;
  storage = st;
}

-- The effect of the mount asks for a saved session; `none` where there is none to restore.
unfoldable pub saved_user : Codec → AuthState → Option String
saved_user c s = elim (truthy (s.storage storage_key)) [
  | none ↦ none
  | some text ↦ elim (c.parse_session text) [
    | throws ↦ none
    | other ↦ none
    | value id ↦ truthy (some id)
  ]
]

-- A stored session that is no JSON is removed at once.
unfoldable pub drop_broken_session : Codec → AuthState → AuthState
drop_broken_session c s = elim (truthy (s.storage storage_key)) [
  | none ↦ s
  | some text ↦ elim (c.parse_session text) [
    | throws ↦ record s { storage = remove_item storage_key s.storage }
    | other ↦ s
    | value id ↦ s
  ]
]

abbrev forget : AuthState → AuthState
forget s = record s {
  current_user = none;
  permissions = [];
  storage = remove_item storage_key s.storage;
}

-- The answer of the backend to `restoreSession`.
unfoldable pub session_restored : Codec → Reply → AuthState → AuthState
session_restored c rejected s = forget s
session_restored c nothing s = forget s
session_restored c (result r) s = elim r.staff [
  | none ↦ forget s
  | some staff ↦
      if r.success
      then record s {
        current_user = some staff;
        permissions = or_default r.permissions [];
        storage =
            set_item storage_key (c.stringify_session staff (or_default r.permissions []))
              s.storage;
      }
      else forget s
]

unfoldable pub extend_session : Codec → ℕ → AuthState → AuthState
extend_session c now s =
    if is_some s.current_user
    then record s {
      storage = set_item last_activity_key (c.number_to_string now) s.storage;
      session_timeout_warning = false;
      idle_minutes_remaining = some s.idle_timeout;
    }
    else s

unfoldable pub set_idle_timeout : ℤ → AuthState → AuthState
set_idle_timeout minutes s =
    if ltb_ℤ (pos 0) minutes
    then record s { idle_timeout = minutes; idle_minutes_remaining = some minutes }
    else s

-- A successful answer to `login` or to `loginWithPIN`.
signed_in : Codec → ℕ → AuthResult → Staff → AuthState → AuthState
signed_in c now r staff s = record s {
  current_user = some staff;
  permissions = or_default r.permissions [];
  require_pin_change =
      if or_default r.require_pin_change false || staff.must_change_pin
      then true
      else s.require_pin_change;
  storage = set_item last_activity_key (c.number_to_string now) (
      set_item last_staff_key staff.id
        (set_item storage_key (c.stringify_session staff (or_default r.permissions [])) s.storage));
}

-- `login`: what `authenticate` answered at the time `now`. A missing result throws at `result.success`,
-- which the handler takes like a rejection.
unfoldable pub login : Codec → ℕ → Reply → AuthState → AuthState
unfolding signed_in
login c now rejected s = s
login c now nothing s = s
login c now (result r) s = elim r.staff [
  | none ↦ s
  | some staff ↦ if r.success then signed_in c now r staff s else s
]

-- `loginWithPIN`: the same, with the answer of `authenticateByPIN`.
unfoldable pub login_with_pin : Codec → ℕ → Reply → AuthState → AuthState
unfolding signed_in
login_with_pin c now rejected s = s
login_with_pin c now nothing s = s
login_with_pin c now (result r) s = elim r.staff [
  | none ↦ s
  | some staff ↦ if r.success then signed_in c now r staff s else s
]

unfoldable pub logout : AuthState → AuthState
logout s = record s {
  current_user = none;
  permissions = [];
  session_timeout_warning = false;
  storage = remove_item last_activity_key (remove_item storage_key s.storage);
}

unfoldable pub has_permission : String → AuthState → Bool
has_permission permission s = elim s.current_user [
  | none ↦ false
  | some user ↦ if user.role === "admin" then true else any (λ p. p === permission) s.permissions
]

-- The minutes left at `now`, from the stored time of the last activity.
remaining : Codec → ℕ → AuthState → Option ℤ
remaining c now s = elim (c.parse_int (or_default (truthy (s.storage last_activity_key)) "0")) [
  | none ↦ none
  | some last ↦ some (s.idle_timeout -ℤ floor_div (pos now -ℤ pos last) 60_000)
]

-- The body of the interval, which runs every minute.
check_idle : Option ℤ → AuthState → AuthState
unfolding logout
check_idle none s = record s { idle_minutes_remaining = none }
check_idle (some left) s =
    let shown = record s {
      idle_minutes_remaining = some (max_ℤ (pos 0) left);
      session_timeout_warning =
          if leb_ℤ left warning_before_logout && ltb_ℤ (pos 0) left
          then true
          else s.session_timeout_warning;
    } in
    if leb_ℤ left (pos 0) then logout shown else shown

-- The interval is set while a user is logged in and the timeout is not 0.
unfoldable pub tick : Codec → ℕ → AuthState → AuthState
unfolding remaining check_idle
tick c now s =
    if is_some s.current_user
    then (if ltb_ℤ (pos 0) s.idle_timeout || ltb_ℤ s.idle_timeout (pos 0)
        then check_idle (remaining c now s) s
        else s)
    else s

-- The effect that watches the idle time, when it starts: it records a first activity if none is stored.
unfoldable pub start_idle : Codec → ℕ → AuthState → AuthState
start_idle c now s =
    if is_some s.current_user && not (is_some (truthy (s.storage last_activity_key)))
    then (if ltb_ℤ (pos 0) s.idle_timeout || ltb_ℤ s.idle_timeout (pos 0)
        then record s { storage = set_item last_activity_key (c.number_to_string now) s.storage }
        else s)
    else s

unfoldable pub set_require_pin_change : Bool → AuthState → AuthState
set_require_pin_change b s = record s { require_pin_change = b }

-- Everything that can change the state of a mounted provider.
pub data Event : Type 0 where
  restored : Reply → Event
  logged_in : ℕ → Reply → Event
  logged_in_by_pin : ℕ → Reply → Event
  logged_out : Event
  activity : ℕ → Event
  idle_started : ℕ → Event
  minute : ℕ → Event
  timeout_set : ℤ → Event
  pin_change_set : Bool → Event

unfoldable pub after : Codec → Event → AuthState → AuthState
unfolding session_restored login login_with_pin logout extend_session start_idle tick
    set_idle_timeout set_require_pin_change
after c (restored r) s = session_restored c r s
after c (logged_in now r) s = login c now r s
after c (logged_in_by_pin now r) s = login_with_pin c now r s
after c logged_out s = logout s
after c (activity now) s = extend_session c now s
after c (idle_started now) s = start_idle c now s
after c (minute now) s = tick c now s
after c (timeout_set m) s = set_idle_timeout m s
after c (pin_change_set b) s = set_require_pin_change b s

unfoldable pub run : Codec → List Event → AuthState → AuthState
run c [] s = s
run c (e ∷ events) s = run c events (after c e s)
