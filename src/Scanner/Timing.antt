-- ===== src/Scanner/Timing.antt =====
-- The buffer and the count of fast keys move together, so every submitted barcode was typed fast.
use beidar_pos.Prelude.{
  ℕ, ◌+◌, ◌≤◌, String, ◌≡◌, Bool, true, false, Option, some, List, [], ◌∷◌, length, arith,
  length-append,
}
use beidar_pos.Scanner.{
  Scanner, KeyEvent, Key, enter, printable, named, start, handle_key_down, handle_key, Event,
  key_down, rendered, reset, marked, after, run,
}

-- All but the first character of the buffer were fast.
pub record IsTimed (s : Scanner) : Type 0 where
  pub most : length s.buffer ≤ s.consecutive_fast + 1
  pub least : s.consecutive_fast ≤ length s.buffer

start-IsTimed : (stored : Option String) (now : ℕ) → IsTimed (start stored now)
unfolding start
start-IsTimed stored now = ground arith

handle_key-IsTimed : (k : Key) (now : ℕ) (s : Scanner) → IsTimed s → IsTimed (handle_key k now s).0
unfolding handle_key
handle_key-IsTimed enter now s t = ground arith
handle_key-IsTimed (printable c) now s t = ground (arith, length-append {0} s.buffer (c ∷ []))
handle_key-IsTimed named now s t = ground arith

after-IsTimed : (enabled : Bool) (e : Event) (s : Scanner) → IsTimed s → IsTimed (after enabled e s)
unfolding after handle_key_down
after-IsTimed enabled (key_down e) s t = ground (arith, handle_key-IsTimed e.key e.now s t)
after-IsTimed enabled rendered s t = ground arith
after-IsTimed enabled reset s t = ground arith
after-IsTimed enabled (marked now) s t = ground arith

-- Every state that a mounted hook can reach is timed.
pub run-IsTimed :
    (enabled : Bool) (events : List Event) (s : Scanner)
    → IsTimed s
    → IsTimed (run enabled events s)
unfolding run
run-IsTimed enabled [] s t = t
run-IsTimed enabled (e ∷ events) s t =
    run-IsTimed enabled events (after enabled e s) (after-IsTimed enabled e s t)

detects :
    (e : KeyEvent) (s : Scanner) (code : List ℕ)
    → IsTimed s
    → (handle_key_down true e s).1.scanned ≡ some code
    → s.detected_ref ≡ false
    → ((handle_key_down true e s).1.usb_detected ≡ true)
      × ((handle_key_down true e s).0.is_usb_detected ≡ true)
unfolding handle_key_down handle_key
detects e s code t h d = ground arith

-- The state after some events since the mount.
abbrev pub reached : Option String → ℕ → List Event → Scanner
reached stored mounted events = run true events (start stored mounted)

-- After any events since the mount, a key that submits a barcode counts as a scan by a USB scanner, unless
-- one is known already: the branch of the hook for a slow scan is never taken.
pub every_scan_detects :
    (stored : Option String) (mounted : ℕ) (events : List Event) (e : KeyEvent) {code : List ℕ}
    → (handle_key_down true e (reached stored mounted events)).1.scanned ≡ some code
    → (reached stored mounted events).detected_ref ≡ false
    → ((handle_key_down true e (reached stored mounted events)).1.usb_detected ≡ true)
      × ((handle_key_down true e (reached stored mounted events)).0.is_usb_detected ≡ true)
every_scan_detects stored mounted events e h d =
    detects e _ _ (run-IsTimed true events _ (start-IsTimed stored mounted)) h d
