-- ===== src/PinModal/Tests.antt =====
-- The property of PinModal.tsx at some events.
use beidar_pos.Prelude.{◌≡◌, refl, true, List, [], ◌∷◌}
use beidar_pos.PinModal.{Event, opened, clicked, changed, run, after, mounted}

abbrev events : List Event
events = opened true ∷ changed (b'1' ∷ b'2' ∷ b'3' ∷ b'4' ∷ b'5' ∷ []) ∷ clicked b'6' ∷ []

four_stay : (run events mounted).pin ≡ b'1' ∷ b'2' ∷ b'3' ∷ b'4' ∷ []
unfolding run after
four_stay = refl
