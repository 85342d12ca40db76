-- ===== src/Scanner.antt =====
-- The detection of a USB barcode scanner from the timing of keys:
-- frontend/src/hooks/useUsbScannerDetection.ts. Times are milliseconds; a key is told apart as the hook
-- does, by its name and by whether that name is one code unit long.
pub mod Timing
pub mod Scans
mod Tests
use beidar_pos.Prelude.{
  ℕ, suc, ◌+◌, ◌-◌, String, Bool, true, false, not, ◌&&◌, Option, none, some, List, [], ◌∷◌, ◌++◌,
  length, ltb, leb, ◌===◌, if◌then◌else◌,
}

-- USB scanners type much faster than humans.
abbrev pub detection_threshold_ms : ℕ
detection_threshold_ms = 50

abbrev pub min_barcode_length : ℕ
min_barcode_length = 3

-- `e.key`: "Enter", one code unit, or any other name.
pub data Key : Type 0 where
  enter : Key
  printable : ℕ → Key
  named : Key

-- A keydown: `in_field` says that an input or a text area has the focus, `now` is `Date.now()`.
pub record KeyEvent : Type 0 where
  pub key : Key
  pub in_field : Bool
  pub now : ℕ

-- The React state, the refs and the stored flag.
pub record Scanner : Type 0 where
  pub is_usb_detected : Bool
  pub last_detection_time : Option ℕ
  pub scan_count : ℕ
  pub detected_ref : Bool
  pub buffer : List ℕ
  pub last_key_time : ℕ
  pub consecutive_fast : ℕ
  pub stored : Option String

-- The calls of the two callbacks: `onScan` with a code, and `onUsbDetected`.
pub record Calls : Type 0 where
  pub scanned : Option (List ℕ)
  pub usb_detected : Bool

abbrev pub no_calls : Calls
no_calls = record { scanned = none; usb_detected = false }

is_stored : Option String → Bool
is_stored none = false
is_stored (some t) = t === "true"

-- The initial state, from what is stored and the time.
unfoldable pub start : Option String → ℕ → Scanner
unfolding is_stored
start stored now = record {
  is_usb_detected = is_stored stored;
  last_detection_time = if is_stored stored then some now else none;
  scan_count = 0;
  detected_ref = is_stored stored;
  buffer = [];
  last_key_time = 0;
  consecutive_fast = 0;
  stored = stored;
}

-- Enter: submit the barcode, then reset the buffer.
handle_enter : ℕ → Scanner → Scanner × Calls
handle_enter now s =
    let reset = record s { buffer = []; consecutive_fast = 0; last_key_time = now } in
    if leb min_barcode_length (length s.buffer)
    then (if leb (min_barcode_length - 1) s.consecutive_fast && not s.detected_ref
        then (
          record reset {
            is_usb_detected = true;
            last_detection_time = some now;
            scan_count = s.scan_count + 1;
            stored = some "true";
          },
          record { scanned = some s.buffer; usb_detected = true },
        )
        else (
          record reset { scan_count = s.scan_count + 1 },
          record { scanned = some s.buffer; usb_detected = false },
        ))
    else (reset, no_calls)

-- `timeDiff <= DETECTION_THRESHOLD_MS`
abbrev pub is_fast : ℕ → Scanner → Bool
is_fast now s = leb now (s.last_key_time + detection_threshold_ms)

-- A character: a slow one starts the buffer anew.
handle_printable : ℕ → ℕ → Scanner → Scanner
handle_printable c now s =
    if is_fast now s
    then record s {
      buffer = s.buffer ++ (c ∷ []);
      consecutive_fast = s.consecutive_fast + 1;
      last_key_time = now;
    }
    else record s { buffer = c ∷ []; consecutive_fast = 0; last_key_time = now }

handle_key : Key → ℕ → Scanner → Scanner × Calls
unfolding handle_enter handle_printable
handle_key enter now s = handle_enter now s
handle_key (printable c) now s = (handle_printable c now s, no_calls)
handle_key named now s = (record s { last_key_time = now }, no_calls)

unfoldable pub handle_key_down : Bool → KeyEvent → Scanner → Scanner × Calls
unfolding handle_key
handle_key_down enabled e s =
    if enabled && not e.in_field then handle_key e.key e.now s else (s, no_calls)

-- The effect that refreshes the refs after a render.
unfoldable pub sync_refs : Scanner → Scanner
sync_refs s = record s { detected_ref = s.is_usb_detected }

unfoldable pub reset_detection : Scanner → Scanner
reset_detection s = record s {
  is_usb_detected = false;
  last_detection_time = none;
  scan_count = 0;
  stored = none;
}

unfoldable pub mark_as_usb_connected : ℕ → Scanner → Scanner
mark_as_usb_connected now s = record s {
  is_usb_detected = true;
  last_detection_time = some now;
  stored = some "true";
}

-- What can happen to a mounted hook, and in any order.
pub data Event : Type 0 where
  key_down : KeyEvent → Event
  rendered : Event
  reset : Event
  marked : ℕ → Event

unfoldable pub after : Bool → Event → Scanner → Scanner
unfolding handle_key_down sync_refs reset_detection mark_as_usb_connected
after enabled (key_down e) s = (handle_key_down enabled e s).0
after enabled rendered s = sync_refs s
after enabled reset s = reset_detection s
after enabled (marked now) s = mark_as_usb_connected now s

unfoldable pub run : Bool → List Event → Scanner → Scanner
run enabled [] s = s
run enabled (e ∷ events) s = run enabled events (after enabled e s)
