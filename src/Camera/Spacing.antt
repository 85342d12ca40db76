-- ===== src/Camera/Spacing.antt =====
-- How the scans of the camera follow each other: the ones of one code, and all of them.
use beidar_pos.Prelude.{
  ℕ, zero, suc, ◌+◌, ◌≤◌, ◌≡◌, refl, ap, inl, inr, String, Bool, true, false, Option, none, some,
  List, [], ◌∷◌, arith, eq_iff, ◌===◌, if◌then◌else◌, Bool-cases, length,
}
use beidar_pos.Sales.Scan.{ScanResult}
use beidar_pos.Camera.{
  CameraState, Seen, is_ignored, begin_scan, finish_scan, reset, set_time, same_item_delay,
}
use beidar_pos.Camera.Machine.{
  Machine, Event, started, read, answered, reset_fired, opened, pick, keep_first, answer, fire,
  step, run,
}

-- The scans of `code` in the list are at least the delay older than `now`.
abbrev pub IsOld : String → ℕ → List (String × ℕ) → Type 0
IsOld code now [] = Unit
IsOld code now ((other, time) ∷ scans) =
    ((other === code) ≡ true → time + same_item_delay ≤ now) × IsOld code now scans

-- Two scans of one code are at least the delay apart; latest first.
abbrev pub IsSpaced : List (String × ℕ) → Type 0
IsSpaced [] = Unit
IsSpaced ((code, now) ∷ scans) = IsOld code now scans × IsSpaced scans

-- No scan is later than what is remembered of its code.
abbrev IsKnown : (String → ℕ) → List (String × ℕ) → Type 0
IsKnown times [] = Unit
IsKnown times ((code, now) ∷ scans) = (now ≤ times code) × IsKnown times scans

known-IsOld :
    (times : String → ℕ) (code : String) (now : ℕ) (scans : List (String × ℕ))
    → IsKnown times scans
    → times code + same_item_delay ≤ now
    → IsOld code now scans
known-IsOld times code now [] k h = tt
known-IsOld times code now ((other, time) ∷ scans) k h = (
  λ e. omega (arith, k.0, h, ap times ((eq_iff other code).0 e)),
  known-IsOld times code now scans k.1 h,
)

begin-IsKnown :
    (times : String → ℕ) (code : String) (now : ℕ) (scans : List (String × ℕ))
    → IsKnown times scans
    → times code ≤ now
    → IsKnown (set_time code now times) scans
begin-IsKnown times code now [] k h = tt
begin-IsKnown times code now ((other, time) ∷ scans) k h = (
  elim (Bool-cases (other === code)) [
    | inl same ↦ rw same (omega (arith, k.0, h, ap times ((eq_iff other code).0 same)))
    | inr differs ↦ rw differs k.0
  ],
  begin-IsKnown times code now scans k.1 h,
)

abbrev IsKept : Machine → Type 0
IsKept m = IsKnown m.state.last_scan_time m.scans × IsSpaced m.scans

answer-IsKept :
    (continuous : Bool) (reply : Option ScanResult)
    (picked : Option ((String × ℕ) × List (String × ℕ))) (m : Machine)
    → IsKept m
    → IsKept (answer continuous reply picked m)
unfolding finish_scan
answer-IsKept continuous reply none m k = k
answer-IsKept continuous none (some (a, rest)) m k = k
answer-IsKept true (some r) (some (a, rest)) m k = elim (Bool-cases r.success) [
  | inl found ↦ rw found k
  | inr missing ↦ rw missing k
]
answer-IsKept false (some r) (some (a, rest)) m k = elim (Bool-cases r.success) [
  | inl found ↦ rw found k
  | inr missing ↦ rw missing k
]

fire-IsKept : (n : ℕ) (m : Machine) → IsKept m → IsKept (fire n m)
unfolding reset
fire-IsKept zero m k = k
fire-IsKept (suc n) m k = k

-- What the guards of the callback say of a code that they let pass.
passes :
    (seen : Seen) (code : String) (now : ℕ) (s : CameraState)
    → is_ignored seen code now s ≡ false
    → (s.processing_ref ≡ false) × (s.last_scan_time code + same_item_delay ≤ now)
unfolding is_ignored
passes seen code now s h = (ground (arith, h), ground (arith, h))

step-IsKept :
    (continuous : Bool) (e : Event) (m : Machine) → IsKept m → IsKept (step continuous e m)
unfolding step begin_scan
step-IsKept continuous started m k = k
step-IsKept continuous (read code now) m k =
    elim (Bool-cases (is_ignored m.seen code now m.state)) [
      | inl ignored ↦ rw ignored k
      | inr passed ↦
          let p = passes m.seen code now m.state passed in
          rw passed (
            (
              ground (arith, eq_iff code code),
              begin-IsKnown m.state.last_scan_time code now m.scans k.0 (omega (arith, p.1)),
            ),
            (known-IsOld m.state.last_scan_time code now m.scans k.0 p.1, k.1),
          )
    ]
step-IsKept continuous (answered n reply) m k =
    answer-IsKept continuous reply (pick n m.waiting) m k
step-IsKept continuous reset_fired m k = fire-IsKept m.resets m k

run-IsKept :
    (continuous : Bool) (events : List Event) (m : Machine)
    → IsKept m
    → IsKept (run continuous events m)
unfolding run
run-IsKept continuous [] m k = k
run-IsKept continuous (e ∷ events) m k =
    run-IsKept continuous events (step continuous e m) (step-IsKept continuous e m k)

-- Whatever the camera reads and whatever the scans answer, in any order, two scans of one code begin at least
-- the delay of 1500 milliseconds apart.
pub scans-IsSpaced :
    (continuous : Bool) (events : List Event) → IsSpaced (run continuous events opened).scans
scans-IsSpaced continuous events = (run-IsKept continuous events opened (tt, tt)).1

-- One scan is under way, or one timer is to end the last, exactly while the overlay takes no code.
abbrev pub IsBusy : Machine → Type 0
IsBusy m = length m.waiting + m.resets + m.closings ≡ (if m.state.processing_ref then 1 else 0)

-- The list has one element more than what is left of it.
abbrev Splits : List (String × ℕ) → Option ((String × ℕ) × List (String × ℕ)) → Type 0
Splits xs none = Unit
Splits xs (some (a, rest)) = length xs ≡ suc (length rest)

keep-Splits :
    (x : String × ℕ) (xs : List (String × ℕ)) (o : Option ((String × ℕ) × List (String × ℕ)))
    → Splits xs o
    → Splits (x ∷ xs) (keep_first x o)
keep-Splits x xs none h = tt
keep-Splits x xs (some (a, rest)) h = ap suc h

pick-Splits : (n : ℕ) (xs : List (String × ℕ)) → Splits xs (pick n xs)
unfolding pick
pick-Splits n [] = tt
pick-Splits zero (x ∷ xs) = refl
pick-Splits (suc n) (x ∷ xs) = keep-Splits x xs (pick n xs) (pick-Splits n xs)

answer-IsBusy :
    (continuous : Bool) (reply : Option ScanResult)
    (picked : Option ((String × ℕ) × List (String × ℕ))) (m : Machine)
    → Splits m.waiting picked
    → IsBusy m
    → IsBusy (answer continuous reply picked m)
unfolding finish_scan
answer-IsBusy continuous reply none m h b = b
answer-IsBusy continuous none (some (a, rest)) m h b = ground (arith, h, b)
answer-IsBusy true (some r) (some (a, rest)) m h b = elim (Bool-cases r.success) [
  | inl found ↦ rw found (ground (arith, h, b))
  | inr missing ↦ rw missing (ground (arith, h, b))
]
answer-IsBusy false (some r) (some (a, rest)) m h b = elim (Bool-cases r.success) [
  | inl found ↦ rw found (ground (arith, h, b))
  | inr missing ↦ rw missing (ground (arith, h, b))
]

fire-IsBusy : (n : ℕ) (m : Machine) → m.resets ≡ n → IsBusy m → IsBusy (fire n m)
unfolding reset
fire-IsBusy zero m e b = b
fire-IsBusy (suc n) m e b = ground (arith, e, b)

step-IsBusy :
    (continuous : Bool) (e : Event) (m : Machine) → IsBusy m → IsBusy (step continuous e m)
unfolding step begin_scan
step-IsBusy continuous started m b = b
step-IsBusy continuous (read code now) m b =
    elim (Bool-cases (is_ignored m.seen code now m.state)) [
      | inl ignored ↦ rw ignored b
      | inr passed ↦ rw passed (ground (arith, b, (passes m.seen code now m.state passed).0))
    ]
step-IsBusy continuous (answered n reply) m b =
    answer-IsBusy continuous reply (pick n m.waiting) m (pick-Splits n m.waiting) b
step-IsBusy continuous reset_fired m b = fire-IsBusy m.resets m refl b

pub run-IsBusy :
    (continuous : Bool) (events : List Event) (m : Machine)
    → IsBusy m
    → IsBusy (run continuous events m)
unfolding run
run-IsBusy continuous [] m b = b
run-IsBusy continuous (e ∷ events) m b =
    run-IsBusy continuous events (step continuous e m) (step-IsBusy continuous e m b)
