-- ===== src/Scanner/Tests.antt =====
-- The properties of useUsbScannerDetection.ts at a scanned code.
use beidar_pos.Prelude.{◌+◌, ◌<◌, ◌≡◌, refl, true, false, none, some, List, [], ◌∷◌, arith}
use beidar_pos.Scanner.{Scanner, start, handle_key_down, Event, run, after}
use beidar_pos.Scanner.Timing.{reached}
use beidar_pos.Scanner.Scans.{burst_is_scanned, Stroke, typed, press}

abbrev strokes : List Stroke
strokes = (b'4', 1010) ∷ (b'2', 1030) ∷ []

abbrev code : List Event
code = typed ((b'6', 1000) ∷ strokes)

abbrev mounted : Scanner
mounted = start none 0

code_is_buffered : (reached none 0 code).buffer ≡ b'6' ∷ b'4' ∷ b'2' ∷ []
unfolding run after start handle_key_down
code_is_buffered = refl

code_is_submitted :
    (handle_key_down true (press 1040) (reached none 0 code)).1.scanned
    ≡ some (b'6' ∷ b'4' ∷ b'2' ∷ [])
unfolding run after start handle_key_down
code_is_submitted = refl

not_yet_detected : (reached none 0 code).detected_ref ≡ false
unfolding run after start handle_key_down
not_yet_detected = refl

last_key : mounted.last_key_time + 50 < 1000
unfolding start
last_key = omega arith

burst_is_scanned_example :
    (handle_key_down true (press 1040) (run true code mounted)).1.scanned
    ≡ some (b'6' ∷ b'4' ∷ b'2' ∷ [])
burst_is_scanned_example =
    burst_is_scanned b'6' 1000 1040 strokes mounted last_key (omega arith, (omega arith, tt))
      (omega arith)
