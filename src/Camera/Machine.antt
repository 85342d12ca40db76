-- ===== src/Camera/Machine.antt =====
-- The overlay as a machine of what the camera reads, what its scans answer and which timers fire.
use beidar_pos.Prelude.{
  ℕ, zero, suc, String, Bool, false, Option, none, some, List, [], ◌∷◌, if◌then◌else◌,
}
use beidar_pos.Sales.Scan.{ScanResult}
use beidar_pos.Camera.{
  CameraState, Seen, Timer, nothing, reset_in, close_in, initial, seen_of, is_ignored, begin_scan,
  finish_scan, reset,
}

-- Its last three lists are what is remembered: the scans that wait for their answer, all the scans, latest
-- first, and the codes of the successful ones. `closings` counts the timers that close the overlay.
pub record Machine : Type 0 where
  pub state : CameraState
  pub seen : Seen
  pub resets : ℕ
  pub closings : ℕ
  pub waiting : List (String × ℕ)
  pub scans : List (String × ℕ)
  pub successes : List String

pub data Event : Type 0 where
  started : Event
  read : String → ℕ → Event
  answered : ℕ → Option ScanResult → Event
  reset_fired : Event

abbrev pub opened : Machine
opened = record {
  state = initial;
  seen = seen_of initial;
  resets = 0;
  closings = 0;
  waiting = [];
  scans = [];
  successes = [];
}

-- The n-th of a list and the others.
abbrev pub keep_first {ℓ} : {A : Type ℓ} → A → Option (A × List A) → Option (A × List A)
keep_first a none = none
keep_first a (some (b, rest)) = some (b, a ∷ rest)

unfoldable pub pick {ℓ} : {A : Type ℓ} → ℕ → List A → Option (A × List A)
pick n [] = none
pick zero (a ∷ rest) = some (a, rest)
pick (suc n) (a ∷ rest) = keep_first a (pick n rest)

abbrev pub is_success : Option ScanResult → Bool
is_success none = false
is_success (some r) = r.success

abbrev pub set_timer : Timer → Machine → Machine
set_timer nothing m = m
set_timer (reset_in delay) m = record m { resets = suc m.resets }
set_timer (close_in delay) m = record m { closings = suc m.closings }

abbrev pub answer :
    Bool → Option ScanResult → Option ((String × ℕ) × List (String × ℕ)) → Machine → Machine
answer continuous reply none m = m
answer continuous reply (some ((code, now), rest)) m =
    let (timer, state) = finish_scan continuous code now reply m.state in
    set_timer timer (record m {
      state = state;
      waiting = rest;
      successes = if is_success reply then code ∷ m.successes else m.successes;
    })

abbrev pub fire : ℕ → Machine → Machine
fire zero m = m
fire (suc n) m = record m { resets = n; state = reset m.state }

unfoldable pub step : Bool → Event → Machine → Machine
step continuous started m = record m { seen = seen_of m.state }
step continuous (read code now) m = if is_ignored m.seen code now m.state then m else record m {
  state = begin_scan code now m.state;
  waiting = (code, now) ∷ m.waiting;
  scans = (code, now) ∷ m.scans;
}
step continuous (answered n reply) m = answer continuous reply (pick n m.waiting) m
step continuous reset_fired m = fire m.resets m

unfoldable pub run : Bool → List Event → Machine → Machine
run continuous [] m = m
run continuous (e ∷ events) m = run continuous events (step continuous e m)
