-- ===== src/Finance/Trend.antt =====
-- The months that finance.tsx compares. A `Date` is the local day at the time of day of the render: the number of its
-- month, 12 for each year, and its day, which `setMonth` changes. `toISOString` gives the day in UTC, so a key is of
-- the month of that one; which of the neighbouring days it is comes from the time of day and the time zone, and is an
-- argument, as is the text of a month.
use text.Mathlib.Text.{starts_with}
use beidar_pos.Prelude.{
  ℕ, suc, ◌+◌, ◌-◌, ◌/◌, ◌%◌, ◌≤◌, ◌<◌, ◌≡◌, refl, ap, ◌∙◌, ◌⊎◌, inl, inr, String, Bool, not, ◌&&◌,
  ◌||◌, List, [], ◌∷◌, map, arith, ◌==◌, if◌then◌else◌, leb, keep_if, Bool-cases,
}
use beidar_pos.Prelude.Int.{ℤ, pos, ◌-ℤ◌, ltb_ℤ, eqb_ℤ, -ℤ_parts, eq_of_parts}
use beidar_pos.Sales.{Sale}
use beidar_pos.Finance.{is_completed, revenue_of}

pub record Day : Type 0 where
  pub month : ℕ
  pub day : ℕ

abbrev pub is_leap : ℕ → Bool
is_leap year = (year % 4 == 0) && (not (year % 100 == 0) || year % 400 == 0)

abbrev pub length_of : ℕ → ℕ → ℕ
length_of year month =
    if month == 1
    then (if is_leap year then 29 else 28)
    else if month == 3 || month == 5 || month == 8 || month == 10
    then 30
    else 31

-- The days of a month.
unfoldable pub days_in : ℕ → ℕ
days_in month = length_of (month / 12) (month % 12)

-- `d.setMonth(d.getMonth() - i)`: a day that the month does not have is one of the next month.
unfoldable pub set_month : ℕ → Day → Day
set_month i d =
    if leb d.day (days_in (d.month - i))
    then record { month = d.month - i; day = d.day }
    else record { month = suc (d.month - i); day = d.day - days_in (d.month - i) }

-- The day in UTC: the one before the local day, the same, or the one after it.
pub data Shift : Type 0 where
  day_before same_day day_after : Shift

abbrev month_shifted : Shift → Day → ℕ
month_shifted same_day d = d.month
month_shifted day_before d = if leb d.day 1 then d.month - 1 else d.month
month_shifted day_after d = if leb (days_in d.month) d.day then suc d.month else d.month

-- The month of `toISOString`, for a time zone at the time of day.
unfoldable pub utc_month : (Day → Shift) → Day → ℕ
utc_month zone d = month_shifted (zone d) d

unfoldable pub month_revenue : (ℕ → String) → (Day → Shift) → List Sale → Day → ℤ
month_revenue key zone sales d =
    revenue_of (keep_if (λ s. starts_with s.date (key (utc_month zone d)) && is_completed s) sales)

-- How far back the bars of the chart are, after their `reverse`.
abbrev pub bars : List ℕ
bars = 5 ∷ 4 ∷ 3 ∷ 2 ∷ 1 ∷ 0 ∷ []

abbrev pub trend_days : Day → List Day
trend_days now = map (λ i. set_month i now) bars

unfoldable pub trend_data : (ℕ → String) → (Day → Shift) → List Sale → Day → List ℤ
trend_data key zone sales now = map (month_revenue key zone sales) (trend_days now)

-- A percentage: a whole one, or a hundred times a quotient.
pub data Growth : Type 0 where
  whole : ℕ → Growth
  ratio : ℤ → ℤ → Growth

abbrev pub growth_of : ℤ → ℤ → Growth
growth_of current previous =
    if eqb_ℤ previous (pos 0)
    then (if ltb_ℤ (pos 0) current then whole 100 else whole 0)
    else ratio (current -ℤ previous) previous

unfoldable pub revenue_growth_pct : (ℕ → String) → (Day → Shift) → List Sale → Day → Growth
revenue_growth_pct key zone sales now =
    growth_of (month_revenue key zone sales now) (month_revenue key zone sales (set_month 1 now))

days_at_least : (year month : ℕ) → 28 ≤ length_of year month
days_at_least year month = ground arith

set_month-early :
    (i : ℕ) (now : Day) → now.day ≤ 28 → set_month i now ≡ record now { month = now.month - i }
unfolding set_month days_in
set_month-early i now h =
    ground (arith, h, days_at_least ((now.month - i) / 12) ((now.month - i) % 12))

abbrev pub last_growth : List ℤ → Growth
last_growth [] = whole 0
last_growth (current ∷ []) = whole 0
last_growth (previous ∷ current ∷ []) = growth_of current previous
last_growth (a ∷ b ∷ c ∷ rest) = last_growth (b ∷ c ∷ rest)

-- Up to the 28th of a month, the six bars are of this day in this month and in the five before it, in order, and the growth is that
-- of the last bar over the one before it.
pub bars_are_six_months :
    (key : ℕ → String) (zone : Day → Shift) (sales : List Sale) (m d : ℕ)
    → d ≤ 28
    → let now : Day = record { month = m + 5; day = d } in
      (trend_data key zone sales now
        ≡ map
            (λ n. month_revenue key zone sales (record { month = n; day = d }))
            (m ∷ (m + 1) ∷ (m + 2) ∷ (m + 3) ∷ (m + 4) ∷ (m + 5) ∷ []))
      × (revenue_growth_pct key zone sales now ≡ last_growth (trend_data key zone sales now))
unfolding trend_data revenue_growth_pct
bars_are_six_months key zone sales m d h =
    let now : Day = record { month = m + 5; day = d } in
    let bar : (i n : ℕ) → m + 5 - i ≡ n → set_month i now ≡ record { month = n; day = d } =
      λ i n e. set_month-early i now h ∙ ap (λ k. record { month = k; day = d }) e in
    rw
      (
        bar 5 m (omega arith),
        bar 4 (m + 1) (omega arith),
        bar 3 (m + 2) (omega arith),
        bar 2 (m + 3) (omega arith),
        bar 1 (m + 4) (omega arith),
        bar 0 (m + 5) (omega arith),
      )
      (refl, refl)

nothing_gained : (a : ℤ) → a -ℤ a ≡ pos 0
nothing_gained a = eq_of_parts _ _ (omega (arith, -ℤ_parts a a))

still : (a : ℤ) → (growth_of a a ≡ whole 0) ⊎ (growth_of a a ≡ ratio (pos 0) a)
still a = elim (Bool-cases (eqb_ℤ a (pos 0))) [
  | inl none_sold ↦ inl (ground (arith, none_sold))
  | inr some_sold ↦ inr (rw some_sold (ap (λ d. ratio d a) (nothing_gained a)))
]

overflows :
    (now : Day)
    → 1 ≤ now.month
    → days_in (now.month - 1) < now.day
    → (set_month 1 now).month ≡ now.month
unfolding set_month
overflows now m h = ground (arith, m, h)

same_revenue :
    (key : ℕ → String) (zone : Day → Shift) (sales : List Sale) (a b : Day)
    → utc_month zone a ≡ utc_month zone b
    → month_revenue key zone sales a ≡ month_revenue key zone sales b
unfolding month_revenue
same_revenue key zone sales a b e =
    ap (λ n. revenue_of (keep_if (λ s. starts_with s.date (key n) && is_completed s) sales)) e

same_month :
    (zone : Day → Shift) (now : Day)
    → 1 ≤ now.month
    → days_in (now.month - 1) < now.day
    → zone now ≡ same_day
    → zone (set_month 1 now) ≡ same_day
    → utc_month zone (set_month 1 now) ≡ utc_month zone now
unfolding utc_month
same_month zone now m h here there = rw (here, there) (overflows now m h)

-- On a day that the month before does not have, the growth is none, whatever was sold: the month is compared with
-- itself. It is so at a time at which the day in UTC is the local one, both now and on the day that `setMonth` gives.
pub growth_stands_still :
    (key : ℕ → String) (zone : Day → Shift) (sales : List Sale) (now : Day)
    → 1 ≤ now.month
    → days_in (now.month - 1) < now.day
    → zone now ≡ same_day
    → zone (set_month 1 now) ≡ same_day
    → (revenue_growth_pct key zone sales now ≡ whole 0)
      ⊎ (revenue_growth_pct key zone sales now ≡ ratio (pos 0) (month_revenue key zone sales now))
unfolding revenue_growth_pct
growth_stands_still key zone sales now m h here there =
    rw (same_revenue key zone sales _ _ (same_month zone now m h here there))
      (still (month_revenue key zone sales now))
