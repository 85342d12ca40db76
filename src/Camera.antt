-- ===== src/Camera.antt =====
-- The scanner that reads codes with the camera: frontend/src/components/BarcodeScannerOverlay.tsx. Times count
-- milliseconds; the library that reads the camera, the scan of a code and the clock are what the events say.
mod Tests
pub mod Machine
pub mod Spacing
pub mod Basket
pub mod Choice
use text.Mathlib.Text.{find?}
use beidar_pos.Prelude.{
  ℕ, suc, ◌+◌, ◌≡◌, String, Bool, true, false, ◌&&◌, ◌||◌, not, Option, none, some, List, [], ◌∷◌,
  ◌++◌, map, ltb, ◌===◌, if◌then◌else◌, find, is_some, or_default,
}
use beidar_pos.Sales.Scan.{ScanResult}
use beidar_pos.Store.{Storage, set_item, truthy}

pub data ScanStatus : Type 0 where
  idle success error : ScanStatus

pub record ScannedItem : Type 0 where
  pub code : String
  pub name : String
  pub count : ℕ
  pub timestamp : ℕ

-- What the overlay keeps. `last_scan_time` is 0 at a code that has not been read.
pub record CameraState : Type 0 where
  pub scan_status : ScanStatus
  pub feedback_message : Option String
  pub last_scanned_code : Option String
  pub is_processing : Bool
  pub processing_ref : Bool
  pub scanned_items : List ScannedItem
  pub last_scan_time : String → ℕ

abbrev pub initial : CameraState
initial = record {
  scan_status = idle;
  feedback_message = none;
  last_scanned_code = none;
  is_processing = false;
  processing_ref = false;
  scanned_items = [];
  last_scan_time = λ _. 0;
}

-- What the callback of a started camera sees: the state of the render in which the camera was chosen.
pub record Seen : Type 0 where
  pub last_scanned_code : Option String
  pub scan_status : ScanStatus

abbrev pub seen_of : CameraState → Seen
seen_of s = record { last_scanned_code = s.last_scanned_code; scan_status = s.scan_status }

abbrev pub same_item_delay : ℕ
same_item_delay = 1500

abbrev pub is_code : String → Option String → Bool
is_code code none = false
is_code code (some last) = code === last

abbrev pub is_error : ScanStatus → Bool
is_error idle = false
is_error success = false
is_error error = true

-- The guards of the callback.
unfoldable pub is_ignored : Seen → String → ℕ → CameraState → Bool
is_ignored seen code now s =
    s.processing_ref
    || ltb now (s.last_scan_time code + same_item_delay)
    || (is_code code seen.last_scanned_code && is_error seen.scan_status)

abbrev pub set_time : String → ℕ → (String → ℕ) → String → ℕ
set_time code now times other = if other === code then now else times other

-- The callback, up to its call of `onScan`.
unfoldable pub begin_scan : String → ℕ → CameraState → CameraState
begin_scan code now s = record s {
  processing_ref = true;
  is_processing = true;
  last_scanned_code = some code;
  last_scan_time = set_time code now s.last_scan_time;
}

abbrev pub one_more : String → ℕ → ScannedItem → ScannedItem
one_more code now i =
    if i.code === code then record i { count = suc i.count; timestamp = now } else i

unfoldable pub add_scanned : String → ℕ → String → List ScannedItem → List ScannedItem
add_scanned code now name items =
    if is_some (find (λ i. i.code === code) items)
    then map (one_more code now) items
    else items ++ (record { code = code; name = name; count = 1; timestamp = now } ∷ [])

-- What the callback leaves to a timer, or `nothing` where the scan threw.
pub data Timer : Type 0 where
  nothing : Timer
  reset_in close_in : ℕ → Timer

-- The callback from the answer of `onScan` on; `none` where it threw.
unfoldable pub finish_scan :
    Bool → String → ℕ → Option ScanResult → CameraState → Timer × CameraState
finish_scan continuous code now none s =
    (nothing, record s { processing_ref = false; is_processing = false })
finish_scan continuous code now (some r) s =
    if r.success
    then (
      if not continuous then close_in 800 else reset_in 800,
      record s {
        scan_status = success;
        feedback_message = some (or_default (truthy r.name) code);
        scanned_items = add_scanned code now (or_default (truthy r.name) code) s.scanned_items;
      },
    )
    else (
      reset_in 2000,
      record s {
        scan_status = error;
        feedback_message = some (
            or_default (truthy r.message)
              "\u{627}\u{644}\u{645}\u{646}\u{62a}\u{62c} \u{63a}\u{64a}\u{631} \u{645}\u{648}\u{62c}\u{648}\u{62f}");
      },
    )

-- The timer that ends a scan.
unfoldable pub reset : CameraState → CameraState
reset s = record s {
  processing_ref = false;
  is_processing = false;
  scan_status = idle;
  feedback_message = none;
}

pub record Device : Type 0 where
  pub id : String
  pub label : String

abbrev pub back_or_first : Option Device → List Device → Option String
back_or_first (some back) devices = some back.id
back_or_first none [] = none
back_or_first none (d ∷ devices) = some d.id

abbrev pub saved_or_back : Option Device → Option Device → List Device → Option String
saved_or_back (some saved) back devices = some saved.id
saved_or_back none back devices = back_or_first back devices

-- `devices.find(d => d.id === savedId)`
abbrev pub find_device : Option String → List Device → Option Device
find_device none devices = none
find_device (some id) devices = find (λ d. d.id === id) devices

abbrev pub is_back : (String → String) → Device → Bool
is_back to_lower_case d =
    is_some (find? (to_lower_case d.label) "back")
    || is_some (find? (to_lower_case d.label) "environment")

-- The camera that the overlay opens with, of those that the browser lists.
unfoldable pub choose_camera : (String → String) → Storage → List Device → Option String
choose_camera to_lower_case storage devices =
    saved_or_back (find_device (storage "preferred-camera-id") devices)
      (find (is_back to_lower_case) devices) devices

-- The effect that starts the chosen camera and remembers it.
unfoldable pub remember_camera : String → Storage → Storage
remember_camera id = set_item "preferred-camera-id" id
