-- ===== src/Camera/Basket.antt =====
-- The list of scanned goods that the overlay shows.
use beidar_pos.Prelude.{
  ℕ, zero, suc, ◌+◌, ◌≤◌, ◌≡◌, refl, ap, ◌⊎◌, inl, inr, String, Bool, true, false, Option, none,
  some, List, [], ◌∷◌, ◌++◌, map, arith, eq_iff, ◌===◌, if◌then◌else◌, Bool-cases, length,
}
use beidar_pos.Prelude.Keys.{
  has_key, HasDistinctKeys, find-has_key, append-HasDistinctKeys, map-HasDistinctKeys,
}
use beidar_pos.Sales.Scan.{ScanResult}
use beidar_pos.Camera.{
  ScannedItem, is_ignored, begin_scan, finish_scan, reset, add_scanned, one_more,
}
use beidar_pos.Camera.Machine.{
  Machine, Event, started, read, answered, reset_fired, opened, pick, answer, fire, step, run,
}
use beidar_pos.Camera.Spacing.{run-IsBusy}

-- The count that the list shows at a code; 0 where it does not list it.
unfoldable pub shown_count : String → List ScannedItem → ℕ
shown_count code [] = 0
shown_count code (i ∷ items) =
    let rest = shown_count code items in if i.code === code then i.count else rest

unfoldable pub times_in : String → List String → ℕ
times_in code [] = 0
times_in code (other ∷ codes) = (if other === code then 1 else 0) + times_in code codes

-- The number on top of the list.
unfoldable pub total_count : List ScannedItem → ℕ
total_count [] = 0
total_count (i ∷ items) = i.count + total_count items

shown_count-one_more :
    (code other : String) (now : ℕ) (items : List ScannedItem)
    → shown_count other (map (one_more code now) items)
      ≡ (if code === other then (if has_key (λ i. i.code) code items then 1 else 0) else 0)
        + shown_count other items
unfolding shown_count has_key
shown_count-one_more code other now [] = ground arith
shown_count-one_more code other now (i ∷ items) = ground (
  arith,
  shown_count-one_more code other now items,
  eq_iff i.code code,
  eq_iff i.code other,
  eq_iff code other,
)

shown_count-append :
    (other : String) (items : List ScannedItem) (j : ScannedItem)
    → shown_count other (items ++ (j ∷ [])) ≡ (
        if has_key (λ i. i.code) other items
        then shown_count other items
        else if j.code === other
        then j.count
        else 0)
unfolding shown_count has_key
shown_count-append other [] j = ground arith
shown_count-append other (i ∷ items) j = ground (arith, shown_count-append other items j)

shown_count-absent :
    (code : String) (items : List ScannedItem)
    → has_key (λ i. i.code) code items ≡ false
    → shown_count code items ≡ 0
unfolding shown_count has_key
shown_count-absent code [] h = refl
shown_count-absent code (i ∷ items) h = ground (arith, shown_count-absent code items)

shown_count-add_scanned :
    (code other : String) (now : ℕ) (name : String) (items : List ScannedItem)
    → shown_count other (add_scanned code now name items)
      ≡ (if code === other then 1 else 0) + shown_count other items
unfolding add_scanned
shown_count-add_scanned code other now name items =
    elim (Bool-cases (has_key (λ i. i.code) code items)) [
      | inl listed ↦
          rw (find-has_key (λ i. i.code) code items, listed)
            (ground (arith, shown_count-one_more code other now items, listed))
      | inr absent ↦
          rw (find-has_key (λ i. i.code) code items, absent)
            (ground (
              arith,
              shown_count-append other items
                  (record { code = code; name = name; count = 1; timestamp = now }),
              shown_count-absent code items absent,
              shown_count-absent other items,
              eq_iff code other,
            ))
    ]

code-one_more : (code : String) (now : ℕ) (i : ScannedItem) → (one_more code now i).code ≡ i.code
code-one_more code now i = ground arith

total_count-append :
    (items : List ScannedItem) (j : ScannedItem)
    → total_count (items ++ (j ∷ [])) ≡ total_count items + j.count
unfolding total_count
total_count-append [] j = omega arith
total_count-append (i ∷ items) j = omega (arith, total_count-append items j)

total_count-one_more :
    (code : String) (now : ℕ) (items : List ScannedItem)
    → HasDistinctKeys (λ i. i.code) items
    → total_count (map (one_more code now) items)
      ≡ (if has_key (λ i. i.code) code items then 1 else 0) + total_count items
unfolding total_count has_key
total_count-one_more code now [] d = refl
total_count-one_more code now (i ∷ items) d =
    ground (arith, d.0, total_count-one_more code now items d.1, eq_iff i.code code)

add_scanned-HasDistinctKeys :
    (code : String) (now : ℕ) (name : String) (items : List ScannedItem)
    → HasDistinctKeys (λ i. i.code) items
    → HasDistinctKeys (λ i. i.code) (add_scanned code now name items)
      × (total_count (add_scanned code now name items) ≡ suc (total_count items))
unfolding add_scanned
add_scanned-HasDistinctKeys code now name items d =
    elim (Bool-cases (has_key (λ i. i.code) code items)) [
      | inl listed ↦
          rw (find-has_key (λ i. i.code) code items, listed)
            (
              map-HasDistinctKeys (λ i. i.code) (one_more code now) (λ i. code-one_more code now i)
                  items d,
              ground (arith, total_count-one_more code now items d, listed),
            )
      | inr absent ↦
          rw (find-has_key (λ i. i.code) code items, absent)
            (
              append-HasDistinctKeys (λ i. i.code) items _ d absent,
              omega (
                arith,
                total_count-append items
                    (record { code = code; name = name; count = 1; timestamp = now }),
              ),
            )
    ]

-- What the list shows is what the successful scans were.
pub record Reflects (items : List ScannedItem) (successes : List String) : Type 0 where
  pub counts : (code : String) → shown_count code items ≡ times_in code successes
  pub distinct : HasDistinctKeys (λ i. i.code) items
  pub whole : total_count items ≡ length successes

add-Reflects :
    (code : String) (now : ℕ) (name : String) (items : List ScannedItem) (successes : List String)
    → Reflects items successes
    → Reflects (add_scanned code now name items) (code ∷ successes)
unfolding times_in
add-Reflects code now name items successes r =
    let a = add_scanned-HasDistinctKeys code now name items r.distinct in
    record {
      counts =
          λ other. omega (arith, shown_count-add_scanned code other now name items, r.counts other);
      distinct = a.0;
      whole = omega (arith, a.1, r.whole);
    }

abbrev Kept : Bool → Machine → Type 0
Kept continuous m =
    Reflects m.state.scanned_items m.successes
    × (if continuous then m.closings ≡ 0 else m.closings ≡ length m.successes)

answer-Kept :
    (continuous : Bool) (reply : Option ScanResult)
    (picked : Option ((String × ℕ) × List (String × ℕ))) (m : Machine)
    → Kept continuous m
    → Kept continuous (answer continuous reply picked m)
unfolding finish_scan
answer-Kept continuous reply none m k = k
answer-Kept true none (some (a, rest)) m k = k
answer-Kept false none (some (a, rest)) m k = k
answer-Kept true (some r) (some ((code, now), rest)) m k = elim (Bool-cases r.success) [
  | inl found ↦ rw found (add-Reflects code now _ m.state.scanned_items m.successes k.0, k.1)
  | inr missing ↦ rw missing k
]
answer-Kept false (some r) (some ((code, now), rest)) m k = elim (Bool-cases r.success) [
  | inl found ↦ rw found (add-Reflects code now _ m.state.scanned_items m.successes k.0, ap suc k.1)
  | inr missing ↦ rw missing k
]

fire-Kept :
    (continuous : Bool) (n : ℕ) (m : Machine) → Kept continuous m → Kept continuous (fire n m)
unfolding reset
fire-Kept true zero m k = k
fire-Kept false zero m k = k
fire-Kept true (suc n) m k = k
fire-Kept false (suc n) m k = k

step-Kept :
    (continuous : Bool) (e : Event) (m : Machine)
    → Kept continuous m
    → Kept continuous (step continuous e m)
unfolding step begin_scan
step-Kept true started m k = k
step-Kept false started m k = k
step-Kept true (read code now) m k = elim (Bool-cases (is_ignored m.seen code now m.state)) [
  | inl ignored ↦ rw ignored k
  | inr passed ↦ rw passed k
]
step-Kept false (read code now) m k = elim (Bool-cases (is_ignored m.seen code now m.state)) [
  | inl ignored ↦ rw ignored k
  | inr passed ↦ rw passed k
]
step-Kept continuous (answered n reply) m k = answer-Kept continuous reply (pick n m.waiting) m k
step-Kept continuous reset_fired m k = fire-Kept continuous m.resets m k

run-Kept :
    (continuous : Bool) (events : List Event) (m : Machine)
    → Kept continuous m
    → Kept continuous (run continuous events m)
unfolding run
run-Kept continuous [] m k = k
run-Kept continuous (e ∷ events) m k =
    run-Kept continuous events (step continuous e m) (step-Kept continuous e m k)

nothing_shown : Reflects [] []
unfolding shown_count times_in total_count
nothing_shown = record { counts = λ code. refl; distinct = tt; whole = refl }

-- The list counts every code as often as it was scanned with success, lists no code twice and shows the number
-- of the successful scans on top, after whatever the camera reads and the scans answer.
pub basket_counts_scans :
    (continuous : Bool) (events : List Event)
    → let m = run continuous events opened in Reflects m.state.scanned_items m.successes
basket_counts_scans true events = (run-Kept true events opened (nothing_shown, refl)).0
basket_counts_scans false events = (run-Kept false events opened (nothing_shown, refl)).0

-- An overlay that is to scan once has at most one scan with success and is set to close as often as that, and
-- from then on takes no code; one that is to go on never closes by itself.
pub scans_once :
    (events : List Event) (code : String) (now : ℕ)
    → let m = run false events opened in
      (length m.successes ≤ 1)
      × (m.closings ≡ length m.successes)
      × ((length m.successes ≡ 0) ⊎ (is_ignored m.seen code now m.state ≡ true))
      × ((run true events opened).closings ≡ 0)
unfolding is_ignored
scans_once events code now =
    let m = run false events opened in
    let k = run-Kept false events opened (nothing_shown, refl) in
    let b = run-IsBusy false events opened refl in
    (
      ground (arith, k.1, b),
      k.1,
      elim (Bool-cases m.state.processing_ref) [
        | inl busy ↦ inr (ground (arith, busy))
        | inr free ↦ inl (ground (arith, k.1, b, free))
      ],
      (run-Kept true events opened (nothing_shown, refl)).1,
    )
