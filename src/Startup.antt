-- ===== src/Startup.antt =====
-- How the application starts, over the global store: frontend/src/hooks/useAppInitialization.ts, the screens
-- and the blocked keys of frontend/src/main.tsx, and frontend/src/hooks/useGlobalKeyboardShortcuts.ts.
pub mod Stages
pub mod Entry
pub mod Keys
mod Tests
use beidar_pos.Prelude.{
  ℕ, String, Bool, true, false, not, ◌&&◌, ◌||◌, Option, none, some, List, [], ◌∷◌, ◌===◌,
  if◌then◌else◌, find,
}
use beidar_pos.Store.{set_item}
use beidar_pos.AppStore.{
  AppState, Stage, splash, cloud_auth, license, login, app, Action, stage_set, palette_set,
  shortcuts_set, view_set, after,
}

-- What a question to the backend gives: it fails, or the answer is yes or no. No status at all counts as no.
pub data Answer : Type 0 where
  failed : Answer
  answered : Bool → Answer

abbrev pub by_cloud : Answer → Stage
by_cloud (answered false) = cloud_auth
by_cloud _ = license

abbrev pub by_license : Answer → Answer → Stage
by_license (answered true) cloud = login
by_license _ cloud = by_cloud cloud

-- `checkAuthStatus`: connected to a server of the local network, licensed, signed in at the cloud.
unfoldable pub check_auth_status : Answer → Answer → Answer → Stage
check_auth_status (answered true) licensed cloud = login
check_auth_status _ licensed cloud = by_license licensed cloud

-- The application while it starts, with whether the effect's timer is set.
pub record Start : Type 0 where
  pub state : AppState
  pub timer_set : Bool

-- What may happen: six seconds pass, the answers of the first check or of a later one arrive, or the user
-- acts on the store.
pub data Event : Type 0 where
  timed_out : Event
  first_checked : Answer → Answer → Answer → Event
  checked_again : Answer → Answer → Answer → Event
  acted : Action → Event

abbrev pub is_splash : Stage → Bool
is_splash splash = true
is_splash _ = false

-- The timer's callback.
abbrev pub give_up : AppState → AppState
give_up s = if is_splash s.app_state then after (stage_set license) s else s

unfoldable pub step : Event → Start → Start
step timed_out s = if s.timer_set then record { state = give_up s.state; timer_set = false } else s
step (first_checked lan licensed cloud) s = record {
  state = after (stage_set (check_auth_status lan licensed cloud)) s.state;
  timer_set = false;
}
step (checked_again lan licensed cloud) s = record s {
  state = after (stage_set (check_auth_status lan licensed cloud)) s.state;
}
step (acted a) s = record s { state = after a s.state }

unfoldable pub run : List Event → Start → Start
run [] s = s
run (e ∷ events) s = run events (step e s)

-- What the root component shows.
pub data Screen : Type 0 where
  splash_screen cloud_login_screen license_screen login_screen main_layout : Screen

unfoldable pub screen_of : Stage → Screen
screen_of splash = splash_screen
screen_of cloud_auth = cloud_login_screen
screen_of license = license_screen
screen_of login = login_screen
screen_of app = main_layout

-- A key press: the key, the modifiers, and whether the target is an input or a text area.
pub record KeyPress : Type 0 where
  pub key : String
  pub ctrl : Bool
  pub shift : Bool
  pub command_key : Bool
  pub in_field : Bool
  pub is_editable : Bool

-- `VIEW_MAP`
abbrev pub view_map : List (String × String)
view_map =
    ("F1", "dashboard")
    ∷ ("F2", "sales")
    ∷ ("F3", "products")
    ∷ ("F4", "inventory")
    ∷ ("F5", "invoices")
    ∷ ("F6", "customers")
    ∷ ("F7", "finance")
    ∷ ("F8", "reports")
    ∷ []

-- What the shortcut handler calls, if anything.
pub data Shortcut : Type 0 where
  blocked toggle_palette toggle_shortcuts : Shortcut
  navigate : String → Shortcut

unfoldable pub is_reload : KeyPress → Bool
is_reload e = e.key === "F5" || (e.ctrl && (e.key === "r" || e.key === "R"))

unfoldable pub is_dev_tools : KeyPress → Bool
is_dev_tools e = e.key === "F12" || (e.ctrl && e.shift && (e.key === "i" || e.key === "I"))

unfoldable pub view_shortcut : String → Option Shortcut
view_shortcut key = elim (find (λ v. key === v.0) view_map) [
  | none ↦ none
  | some v ↦ some (navigate v.1)
]

unfoldable pub shortcut : KeyPress → Option Shortcut
shortcut e =
    if is_reload e
    then some blocked
    else if is_dev_tools e
    then some blocked
    else if (e.command_key || e.ctrl) && e.key === "k"
    then some toggle_palette
    else if e.key === "?" && not e.ctrl && not e.command_key && not e.in_field
    then some toggle_shortcuts
    else view_shortcut e.key

-- The effect of a shortcut on the store. It is only listened to in the application; a navigation changes the
-- route, and the effect on the route the view.
abbrev pub perform : Shortcut → AppState → AppState
perform blocked s = s
perform toggle_palette s = after (palette_set (not s.is_command_palette_open)) s
perform toggle_shortcuts s = after (shortcuts_set (not s.is_shortcuts_open)) s
perform (navigate view) s = if s.active_view === view then s else after (view_set view) s

abbrev pub handle_at : Stage → Option Shortcut → AppState → AppState
handle_at app (some c) s = perform c s
handle_at _ _ s = s

unfoldable pub handle_key : KeyPress → AppState → AppState
handle_key e s = handle_at s.app_state (shortcut e) s

-- `preventKeys` of main.tsx: the browser's own keys.
unfoldable pub prevents_key : KeyPress → Bool
prevents_key e =
    is_reload e
    || is_dev_tools e
    || (e.ctrl && (e.key === "p" || e.key === "P"))
    || (e.ctrl && (e.key === "s" || e.key === "S"))
    || (e.ctrl && (e.key === "f" || e.key === "F"))
    || (e.ctrl && (e.key === "=" || e.key === "+" || e.key === "-" || e.key === "0"))

-- `preventBackspace`
unfoldable pub prevents_backspace : KeyPress → Bool
prevents_backspace e = e.key === "Backspace" && not e.in_field && not e.is_editable
