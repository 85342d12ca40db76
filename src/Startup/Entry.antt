-- ===== src/Startup/Entry.antt =====
-- Which stages the start of the application reaches only after an answer that lets the user on.
use beidar_pos.Prelude.{
  ◌≡◌, refl, ◌∙◌, inl, inr, Bool, true, false, List, [], ◌∷◌, arith, All, Bool-cases,
}
use beidar_pos.Store.{Storage}
use beidar_pos.AppStore.{
  AppState, Stage, login, app, Action, stage_set, palette_set, shortcuts_set, view_set,
  theme_toggled, chat_set, notified, online_set, session_cleared, notify, after, initial,
}
use beidar_pos.Startup.{
  Answer, by_cloud, failed, answered, check_auth_status, Start, Event, timed_out, first_checked,
  checked_again, acted, is_splash, step, run,
}
use beidar_pos.Startup.Stages.{starting}

-- An answer that lets the user on to the sign-in.
abbrev pub is_granted : Event → Bool
is_granted (first_checked (answered true) licensed cloud) = true
is_granted (first_checked lan (answered true) cloud) = true
is_granted (checked_again (answered true) licensed cloud) = true
is_granted (checked_again lan (answered true) cloud) = true
is_granted _ = false

-- The user's actions that set the stage.
abbrev pub sets_stage : Event → Bool
sets_stage (acted (stage_set stage)) = true
sets_stage (acted session_cleared) = true
sets_stage _ = false

-- The stages behind the licence.
abbrev pub is_behind : Stage → Bool
is_behind login = true
is_behind app = true
is_behind _ = false

by_cloud-stays : (cloud : Answer) → is_behind (by_cloud cloud) ≡ false
by_cloud-stays failed = refl
by_cloud-stays (answered true) = refl
by_cloud-stays (answered false) = refl

first-granted :
    (lan licensed cloud : Answer)
    → is_behind (check_auth_status lan licensed cloud)
      ≡ is_granted (first_checked lan licensed cloud)
unfolding check_auth_status
first-granted (answered true) licensed cloud = refl
first-granted (answered false) (answered true) cloud = refl
first-granted (answered false) (answered false) cloud = by_cloud-stays cloud
first-granted (answered false) failed cloud = by_cloud-stays cloud
first-granted failed (answered true) cloud = refl
first-granted failed (answered false) cloud = by_cloud-stays cloud
first-granted failed failed cloud = by_cloud-stays cloud

again-granted :
    (lan licensed cloud : Answer)
    → is_behind (check_auth_status lan licensed cloud)
      ≡ is_granted (checked_again lan licensed cloud)
unfolding check_auth_status
again-granted (answered true) licensed cloud = refl
again-granted (answered false) (answered true) cloud = refl
again-granted (answered false) (answered false) cloud = by_cloud-stays cloud
again-granted (answered false) failed cloud = by_cloud-stays cloud
again-granted failed (answered true) cloud = refl
again-granted failed (answered false) cloud = by_cloud-stays cloud
again-granted failed failed cloud = by_cloud-stays cloud

act-stays :
    (a : Action) (s : AppState)
    → sets_stage (acted a) ≡ false
    → is_behind s.app_state ≡ false
    → is_behind (after a s).app_state ≡ false
unfolding after notify
act-stays (stage_set stage) s r h = absurd (ground arith)
act-stays session_cleared s r h = absurd (ground arith)
act-stays (view_set view) s r h = h
act-stays theme_toggled s r h = h
act-stays (palette_set b) s r h = h
act-stays (chat_set b) s r h = h
act-stays (shortcuts_set b) s r h = h
act-stays (online_set b) s r h = h
act-stays (notified message kind now) s r h = ground arith

step-stays :
    (e : Event) (s : Start)
    → sets_stage e ≡ false
    → is_granted e ≡ false
    → is_behind s.state.app_state ≡ false
    → is_behind (step e s).state.app_state ≡ false
unfolding step after
step-stays timed_out s r g h = elim (Bool-cases s.timer_set) [
  | inr cleared ↦ rw cleared h
  | inl set ↦ rw set (elim (Bool-cases (is_splash s.state.app_state)) [
    | inl here ↦ rw here refl
    | inr left ↦ rw left h
  ])
]
step-stays (first_checked lan licensed cloud) s r g h = first-granted lan licensed cloud ∙ g
step-stays (checked_again lan licensed cloud) s r g h = again-granted lan licensed cloud ∙ g
step-stays (acted a) s r g h = act-stays a s.state r h

run-stays :
    (events : List Event) (s : Start)
    → All (λ e. sets_stage e ≡ false) events
    → All (λ e. is_granted e ≡ false) events
    → is_behind s.state.app_state ≡ false
    → is_behind (run events s).state.app_state ≡ false
unfolding run
run-stays [] s r g h = h
run-stays (e ∷ events) s r g h = run-stays events (step e s) r.1 g.1 (step-stays e s r.0 g.0 h)

-- Nobody gets to the sign-in or behind it without an answer that the computer is connected to a server of the
-- local network or licensed: as long as no check of the start or of a later screen has such an answer, and no
-- user's action sets the stage, neither failures nor the timer do so.
pub no_entry_without_grant :
    (online : Bool) (st : Storage) (events : List Event)
    → All (λ e. sets_stage e ≡ false) events
    → All (λ e. is_granted e ≡ false) events
    → is_behind (run events (starting online st)).state.app_state ≡ false
unfolding initial
no_entry_without_grant online st events r g = run-stays events (starting online st) r g refl
