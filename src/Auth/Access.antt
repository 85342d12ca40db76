-- ===== src/Auth/Access.antt =====
-- Who may do what, in every state that the provider of AuthContext.tsx can reach.
use beidar_pos.Prelude.{
  ℕ, String, ◌≡◌, refl, ◌⊎◌, true, false, Option, none, List, [], ◌∷◌, arith, or_default, is_some,
}
use beidar_pos.Prelude.Int.{ℤ, pos, ◌<ℤ◌}
use beidar_pos.Store.{Storage}
use beidar_pos.Auth.{
  Staff, Reply, rejected, nothing, result, Codec, AuthState, initial, login, logout, has_permission,
  check_idle, Event, restored, logged_in, logged_in_by_pin, logged_out, activity, idle_started,
  minute, timeout_set, pin_change_set, after, run,
}

-- No permission is held without a user, and the idle timeout is positive.
pub record IsSession (s : AuthState) : Type 0 where
  pub no_user : s.current_user ≡ none → s.permissions ≡ []
  pub timed : pos 0 <ℤ s.idle_timeout

check_idle-IsSession :
    (left : Option ℤ) (s : AuthState) → IsSession s → IsSession (check_idle left s)
unfolding check_idle
check_idle-IsSession left s h = record { no_user = ground arith; timed = ground arith }

after-IsSession : (c : Codec) (e : Event) (s : AuthState) → IsSession s → IsSession (after c e s)
unfolding after
after-IsSession c (restored r) s h = record { no_user = ground arith; timed = ground arith }
after-IsSession c (logged_in now r) s h = record { no_user = ground arith; timed = ground arith }
after-IsSession c (logged_in_by_pin now r) s h = record {
  no_user = ground arith;
  timed = ground arith;
}
after-IsSession c logged_out s h = record { no_user = ground arith; timed = ground arith }
after-IsSession c (activity now) s h = record { no_user = ground arith; timed = ground arith }
after-IsSession c (idle_started now) s h = record { no_user = ground arith; timed = ground arith }
after-IsSession c (minute now) s h = record { no_user = ground arith; timed = ground arith }
after-IsSession c (timeout_set m) s h = record { no_user = ground arith; timed = ground arith }
after-IsSession c (pin_change_set b) s h = record { no_user = ground arith; timed = ground arith }

initial-IsSession : (st : Storage) → IsSession (initial st)
unfolding initial
initial-IsSession st = record { no_user = λ e. refl; timed = omega arith }

run-IsSession :
    (c : Codec) (events : List Event) (s : AuthState) → IsSession s → IsSession (run c events s)
unfolding run
run-IsSession c [] s h = h
run-IsSession c (e ∷ events) s h = run-IsSession c events (after c e s) (after-IsSession c e s h)

-- The state after some events since the mount.
abbrev pub reached : Codec → Storage → List Event → AuthState
reached c st events = run c events (initial st)

-- Whatever has happened since the mount, if no user is logged in then no permission is held, and
-- `hasPermission` refuses every one.
pub signed_out_refuses :
    (c : Codec) (st : Storage) (events : List Event) (permission : String)
    → is_some (reached c st events).current_user ≡ false
    → ((reached c st events).permissions ≡ [])
      × (has_permission permission (reached c st events) ≡ false)
unfolding has_permission
signed_out_refuses c st events permission out =
    let h = run-IsSession c events (initial st) (initial-IsSession st) in ground (arith, h.no_user)

-- The idle timeout is positive whatever has happened, so no setting switches the idle logout off.
pub idle_timeout_pos :
    (c : Codec) (st : Storage) (events : List Event) → pos 0 <ℤ (reached c st events).idle_timeout
idle_timeout_pos c st events = (run-IsSession c events (initial st) (initial-IsSession st)).timed

-- The backend's answer that an event carries.
abbrev pub reply_of : Event → Reply
reply_of (restored r) = r
reply_of (logged_in now r) = r
reply_of (logged_in_by_pin now r) = r
reply_of _ = rejected

-- An answer that lets a staff member in, with permissions.
abbrev pub Accepts : Reply → Option Staff → List String → Type 0
Accepts (result r) staff permissions =
    (r.success ≡ true)
    × (is_some staff ≡ true)
    × (r.staff ≡ staff)
    × (or_default r.permissions [] ≡ permissions)
Accepts _ staff permissions = ⊥

-- Whatever happens, the user and the permissions stay, or both are cleared, or both are those of a
-- successful answer of the backend to this very event.
pub access_only_by_reply :
    (c : Codec) (e : Event) (s : AuthState)
    → let s' = after c e s in
      ((s'.current_user ≡ s.current_user) × (s'.permissions ≡ s.permissions))
      ⊎ ((s'.current_user ≡ none) × (s'.permissions ≡ []))
      ⊎ Accepts (reply_of e) s'.current_user s'.permissions
unfolding after check_idle
access_only_by_reply c (restored rejected) s = ground arith
access_only_by_reply c (restored nothing) s = ground arith
access_only_by_reply c (restored (result r)) s = ground arith
access_only_by_reply c (logged_in now rejected) s = ground arith
access_only_by_reply c (logged_in now nothing) s = ground arith
access_only_by_reply c (logged_in now (result r)) s = ground arith
access_only_by_reply c (logged_in_by_pin now rejected) s = ground arith
access_only_by_reply c (logged_in_by_pin now nothing) s = ground arith
access_only_by_reply c (logged_in_by_pin now (result r)) s = ground arith
access_only_by_reply c logged_out s = ground arith
access_only_by_reply c (activity now) s = ground arith
access_only_by_reply c (idle_started now) s = ground arith
access_only_by_reply c (minute now) s = ground arith
access_only_by_reply c (timeout_set m) s = ground arith
access_only_by_reply c (pin_change_set b) s = ground arith

-- A demand to change the PIN survives the logout of its user: whoever logs in next is asked.
pub pin_change_outlives_logout :
    (c : Codec) (now : ℕ) (r : Reply) (s : AuthState)
    → s.require_pin_change ≡ true
    → (login c now r (logout s)).require_pin_change ≡ true
unfolding login logout
pin_change_outlives_logout c now rejected s h = ground arith
pin_change_outlives_logout c now nothing s h = ground arith
pin_change_outlives_logout c now (result r) s h = ground arith
