-- ===== src/Camera/Tests.antt =====
-- Examples of the camera scanner.
use beidar_pos.Prelude.{◌≡◌, ◌≤◌, ◌⊎◌, refl, true, false, none, some, List, [], ◌∷◌, length}
use beidar_pos.Sales.Scan.{ScanResult}
use beidar_pos.Camera.{
  is_ignored, begin_scan, finish_scan, add_scanned, reset, Device, choose_camera,
}
use beidar_pos.Camera.Machine.{Event, started, read, answered, reset_fired, opened, pick, step, run}
use beidar_pos.Camera.Spacing.{IsSpaced, scans-IsSpaced}
use beidar_pos.Camera.Basket.{Reflects, basket_counts_scans, scans_once, shown_count}

abbrev found : ScanResult
found = record { success = true; name = some "tea"; message = none }

-- The second reading of the code comes while the first is under way, the third too early after it.
abbrev evening : List Event
evening =
    started
    ∷ read "A" 2000
    ∷ read "A" 2100
    ∷ answered 0 (some found)
    ∷ reset_fired
    ∷ read "A" 3000
    ∷ read "A" 3600
    ∷ answered 0 (some found)
    ∷ []

two_are_counted : (run true evening opened).scans ≡ ("A", 3600) ∷ ("A", 2000) ∷ []
unfolding run step is_ignored begin_scan pick finish_scan add_scanned reset
two_are_counted = refl

shows_two : shown_count "A" (run true evening opened).state.scanned_items ≡ 2
unfolding run step is_ignored begin_scan pick finish_scan add_scanned reset shown_count
shows_two = refl

scans-IsSpaced_example : IsSpaced (run true evening opened).scans
scans-IsSpaced_example = scans-IsSpaced true evening

basket_counts_scans_example :
    Reflects (run true evening opened).state.scanned_items (run true evening opened).successes
basket_counts_scans_example = basket_counts_scans true evening

scans_once_example :
    (length (run false evening opened).successes ≤ 1)
    × ((run false evening opened).closings ≡ length (run false evening opened).successes)
    × ((length (run false evening opened).successes ≡ 0)
        ⊎ (is_ignored (run false evening opened).seen "B" 9000 (run false evening opened).state
            ≡ true))
    × ((run true evening opened).closings ≡ 0)
scans_once_example = scans_once evening "B" 9000

abbrev cameras : List Device
cameras = record { id = "1"; label = "front" } ∷ record { id = "2"; label = "back" } ∷ []

opens_with_back : choose_camera (λ t. t) (λ _. none) cameras ≡ some "2"
unfolding choose_camera
opens_with_back = refl
