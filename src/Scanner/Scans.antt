-- ===== src/Scanner/Scans.antt =====
-- Which codes are submitted, how often, and what a burst of keys gives.
use beidar_pos.Prelude.{
  ℕ, suc, ◌+◌, ◌≤◌, ◌<◌, ◌≡◌, refl, ap, ◌∙◌, Bool, true, false, not, ◌&&◌, none, some, List, [],
  ◌∷◌, ◌++◌, length, arith, leb, if◌then◌else◌,
}
use mathlib.Core.List.{append-nil, append_assoc}
use beidar_pos.Scanner.{
  Scanner, KeyEvent, Key, enter, printable, handle_key_down, handle_key, handle_printable, Event,
  key_down, after, run,
}

abbrev pub is_enter : Key → Bool
is_enter enter = true
is_enter _ = false

-- When a key submits the buffer: the hook is enabled, the key is Enter outside a field, and the buffer has
-- at least three characters.
abbrev pub submits : Bool → KeyEvent → Scanner → Bool
submits enabled e s = enabled && not e.in_field && is_enter e.key && leb 3 (length s.buffer)

-- A key hands the whole buffer to `onScan` and counts one scan exactly when the hook is enabled, the key is
-- Enter outside a field and the buffer has at least three characters; otherwise it hands over nothing and
-- leaves the count.
pub scan_iff_submits :
    (enabled : Bool) (e : KeyEvent) (s : Scanner)
    → let (s', calls) = handle_key_down enabled e s in
      (calls.scanned ≡ (if submits enabled e s then some s.buffer else none))
      × (s'.scan_count ≡ (if submits enabled e s then s.scan_count + 1 else s.scan_count))
unfolding handle_key_down handle_key
scan_iff_submits enabled e s = ground arith

-- A character and its time.
abbrev pub Stroke : Type 0
Stroke = ℕ × ℕ

-- Each stroke comes at most 50 ms after the one before it.
abbrev pub IsBurst : ℕ → List Stroke → Type 0
IsBurst last [] = Unit
IsBurst last ((c, now) ∷ rest) = (now ≤ last + 50) × IsBurst now rest

abbrev pub typed : List Stroke → List Event
typed [] = []
typed ((c, now) ∷ rest) =
    key_down (record { key = printable c; in_field = false; now = now }) ∷ typed rest

abbrev pub characters : List Stroke → List ℕ
characters [] = []
characters ((c, now) ∷ rest) = c ∷ characters rest

length-characters : (strokes : List Stroke) → length (characters strokes) ≡ length strokes
length-characters [] = refl
length-characters ((c, now) ∷ rest) = ap suc (length-characters rest)

printable_time : (c now : ℕ) (s : Scanner) → (handle_printable c now s).last_key_time ≡ now
unfolding handle_printable
printable_time c now s = ground arith

printable_fast :
    (c now : ℕ) (s : Scanner)
    → now ≤ s.last_key_time + 50
    → (handle_printable c now s).buffer ≡ s.buffer ++ (c ∷ [])
unfolding handle_printable
printable_fast c now s h = ground arith

printable_slow :
    (c now : ℕ) (s : Scanner)
    → s.last_key_time + 50 < now
    → (handle_printable c now s).buffer ≡ c ∷ []
unfolding handle_printable
printable_slow c now s h = ground arith

burst_appends :
    (strokes : List Stroke) (s : Scanner)
    → IsBurst s.last_key_time strokes
    → (run true (typed strokes) s).buffer ≡ s.buffer ++ characters strokes
unfolding run after handle_key_down handle_key
burst_appends [] s b = rw append-nil
burst_appends ((c, now) ∷ rest) s (fast, b) =
    burst_appends rest (handle_printable c now s) (rw (printable_time c now s) b)
    ∙ (rw (printable_fast c now s fast) (append_assoc s.buffer (c ∷ []) (characters rest)))

abbrev pub press : ℕ → KeyEvent
press at = record { key = enter; in_field = false; now = at }

-- While the hook is enabled, a burst of characters outside input fields and text areas, each at most 50 ms after
-- the one before, that begins more than 50 ms after the last key, is submitted by Enter outside them as exactly
-- its characters, whatever was typed before, if they are three or more.
pub burst_is_scanned :
    (c first at : ℕ) (strokes : List Stroke) (s : Scanner)
    → s.last_key_time + 50 < first
    → IsBurst first strokes
    → 2 ≤ length strokes
    → let full = run true (typed ((c, first) ∷ strokes)) s in
      (handle_key_down true (press at) full).1.scanned ≡ some (c ∷ characters strokes)
unfolding run after handle_key_down handle_key
burst_is_scanned c first at strokes s slow b l =
    let begun = handle_printable c first s in
    let whole : (run true (typed strokes) begun).buffer ≡ c ∷ characters strokes =
      burst_appends strokes begun (rw (printable_time c first s) b)
      ∙ (rw (printable_slow c first s slow)) in
    ground (arith, whole, length-characters strokes)
