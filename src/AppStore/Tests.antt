-- ===== src/AppStore/Tests.antt =====
-- The property of appStore.ts at some actions.
use beidar_pos.Prelude.{◌≡◌, refl, true, none, List, [], ◌∷◌, length}
use beidar_pos.Store.{Storage}
use beidar_pos.AppStore.{Action, notified, theme_toggled, info, run, after, initial}

abbrev empty : Storage
empty key = none

abbrev actions : List Action
actions =
    notified "saved" info 5000
    ∷ notified "saved" info 6000
    ∷ theme_toggled
    ∷ notified "saved" info 7000
    ∷ notified "sold" info 7001
    ∷ notified "saved" info 7002
    ∷ []

four_shown : length (run actions (initial true empty)).toasts ≡ 4
unfolding run after initial
four_shown = refl
