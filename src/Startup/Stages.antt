-- ===== src/Startup/Stages.antt =====
-- Which stages the start of the application reaches.
use beidar_pos.Prelude.{
  ◌≡◌, refl, ◌⊎◌, inl, inr, Bool, true, false, List, [], ◌∷◌, arith, All, Bool-cases,
}
use beidar_pos.Store.{Storage}
use beidar_pos.AppStore.{
  AppState, splash, cloud_auth, license, login, app, Action, stage_set, palette_set, shortcuts_set,
  view_set, theme_toggled, chat_set, notified, online_set, session_cleared, notify, after, initial,
}
use beidar_pos.Startup.{
  Answer, by_cloud, by_license, give_up, failed, answered, check_auth_status, Start, Event,
  timed_out, first_checked, checked_again, acted, is_splash, step, run,
}

-- The state in which the effect of the first render leaves the application.
abbrev pub starting : Bool → Storage → Start
starting online st = record { state = initial online st; timer_set = true }

by_cloud-leaves : (cloud : Answer) → is_splash (by_cloud cloud) ≡ false
by_cloud-leaves failed = refl
by_cloud-leaves (answered true) = refl
by_cloud-leaves (answered false) = refl

by_license-leaves : (licensed cloud : Answer) → is_splash (by_license licensed cloud) ≡ false
by_license-leaves (answered true) cloud = refl
by_license-leaves (answered false) cloud = by_cloud-leaves cloud
by_license-leaves failed cloud = by_cloud-leaves cloud

check-leaves :
    (lan licensed cloud : Answer) → is_splash (check_auth_status lan licensed cloud) ≡ false
unfolding check_auth_status
check-leaves (answered true) licensed cloud = refl
check-leaves (answered false) licensed cloud = by_license-leaves licensed cloud
check-leaves failed licensed cloud = by_license-leaves licensed cloud

-- An action that goes back to the splash screen; the program has none.
abbrev pub returns_to_splash : Event → Bool
returns_to_splash (acted (stage_set splash)) = true
returns_to_splash _ = false

-- The timer's end, or the answers of the first check.
abbrev pub ends_start : Event → Bool
ends_start timed_out = true
ends_start (first_checked lan licensed cloud) = true
ends_start _ = false

-- The splash screen is left, or the timer is set.
abbrev IsLeaving : Start → Type 0
IsLeaving s = (is_splash s.state.app_state ≡ false) ⊎ (s.timer_set ≡ true)

act-leaves :
    (a : Action) (s : AppState)
    → returns_to_splash (acted a) ≡ false
    → is_splash s.app_state ≡ false
    → is_splash (after a s).app_state ≡ false
unfolding after notify
act-leaves (stage_set splash) s r h = absurd (ground arith)
act-leaves (stage_set cloud_auth) s r h = refl
act-leaves (stage_set license) s r h = refl
act-leaves (stage_set login) s r h = refl
act-leaves (stage_set app) s r h = refl
act-leaves session_cleared s r h = refl
act-leaves (view_set view) s r h = h
act-leaves theme_toggled s r h = h
act-leaves (palette_set b) s r h = h
act-leaves (chat_set b) s r h = h
act-leaves (shortcuts_set b) s r h = h
act-leaves (online_set b) s r h = h
act-leaves (notified message kind now) s r h = ground arith

give_up-leaves : (s : AppState) → is_splash (give_up s).app_state ≡ false
unfolding after
give_up-leaves s = elim (Bool-cases (is_splash s.app_state)) [
  | inl here ↦ rw here refl
  | inr left ↦ rw left left
]

step-leaves :
    (e : Event) (s : Start)
    → returns_to_splash e ≡ false
    → is_splash s.state.app_state ≡ false
    → is_splash (step e s).state.app_state ≡ false
unfolding step after
step-leaves timed_out s r h = elim (Bool-cases s.timer_set) [
  | inl set ↦ rw set (give_up-leaves s.state)
  | inr cleared ↦ rw cleared h
]
step-leaves (first_checked lan licensed cloud) s r h = check-leaves lan licensed cloud
step-leaves (checked_again lan licensed cloud) s r h = check-leaves lan licensed cloud
step-leaves (acted a) s r h = act-leaves a s.state r h

step-IsLeaving :
    (e : Event) (s : Start) → returns_to_splash e ≡ false → IsLeaving s → IsLeaving (step e s)
unfolding step after
step-IsLeaving e s r (inl left) = inl (step-leaves e s r left)
step-IsLeaving timed_out s r (inr set) = inl (rw set (give_up-leaves s.state))
step-IsLeaving (first_checked lan licensed cloud) s r (inr set) =
    inl (check-leaves lan licensed cloud)
step-IsLeaving (checked_again lan licensed cloud) s r (inr set) = inr set
step-IsLeaving (acted a) s r (inr set) = inr set

end-leaves :
    (e : Event) (s : Start)
    → ends_start e ≡ true
    → IsLeaving s
    → is_splash (step e s).state.app_state ≡ false
unfolding step after
end-leaves timed_out s h (inl left) = step-leaves timed_out s refl left
end-leaves timed_out s h (inr set) = rw set (give_up-leaves s.state)
end-leaves (first_checked lan licensed cloud) s h l = check-leaves lan licensed cloud
end-leaves (checked_again lan licensed cloud) s h l = absurd (ground arith)
end-leaves (acted a) s h l = absurd (ground arith)

run-IsLeaving :
    (events : List Event) (s : Start)
    → All (λ e. returns_to_splash e ≡ false) events
    → IsLeaving s
    → IsLeaving (run events s)
unfolding run
run-IsLeaving [] s r l = l
run-IsLeaving (e ∷ events) s r l = run-IsLeaving events (step e s) r.1 (step-IsLeaving e s r.0 l)

run-leaves :
    (events : List Event) (s : Start)
    → All (λ e. returns_to_splash e ≡ false) events
    → is_splash s.state.app_state ≡ false
    → is_splash (run events s).state.app_state ≡ false
unfolding run
run-leaves [] s r h = h
run-leaves (e ∷ events) s r h = run-leaves events (step e s) r.1 (step-leaves e s r.0 h)

-- The splash screen is never hung on: once six seconds have passed or the first check has its answers,
-- whatever they are, the splash screen is left, and it stays left, whatever else happens before and
-- afterwards that does not set the stage to the splash screen.
pub start_leaves_splash :
    (online : Bool) (st : Storage) (before afterwards : List Event) (e : Event)
    → All (λ e. returns_to_splash e ≡ false) before
    → All (λ e. returns_to_splash e ≡ false) afterwards
    → ends_start e ≡ true
    → is_splash (run afterwards (step e (run before (starting online st)))).state.app_state ≡ false
start_leaves_splash online st before afterwards e b a h =
    run-leaves afterwards _ a
      (end-leaves e _ h (run-IsLeaving before (starting online st) b (inr refl)))
