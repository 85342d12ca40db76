-- ===== src/Inventory/Tests.antt =====
-- Examples of the inventory page.
use beidar_pos.Prelude.{
  ℕ, zero, suc, ◌≡◌, refl, ap, String, none, some, List, [], ◌∷◌, arith, eq_iff,
}
use beidar_pos.Prelude.Int.{pos}
use beidar_pos.Store.{value, truthy}
use beidar_pos.Cart.{Product}
use beidar_pos.Inventory.{Codec, IsRead, mount, begin_analysis, analysis_listed, analysis_done}
use beidar_pos.Inventory.Analysis.{
  Event, clicked, listed, reported, restarted, left, late, opened, step, run,
}
use beidar_pos.Inventory.Spacing.{IsPatient, IsSpaced, done-IsSpaced}

abbrev ones : ℕ → String
ones zero = "."
ones (suc n) = String.◌∷◌ "1" (ones n)

abbrev size : String → ℕ
size String.[] = 0
size (String.◌∷◌ c s) = suc (size s)

abbrev pred : ℕ → ℕ
pred zero = 0
pred (suc n) = n

-- A codec that keeps the time only.
abbrev codec : Codec
codec = record {
  stringify = λ timestamp report. ones timestamp;
  parse = λ text. value (pred (size text), "report");
}

size-ones : (n : ℕ) → size (ones n) ≡ suc n
size-ones zero = refl
size-ones (suc n) = ap suc (size-ones n)

size_empty : (s : String) → s ≡ "" → size s ≡ 0
size_empty s e = ap size e

ones-truthy : (n : ℕ) → truthy (some (ones n)) ≡ some (ones n)
ones-truthy n = ground (arith, eq_iff (ones n) "", size-ones n, size_empty (ones n))

codec-IsRead : IsRead codec
codec-IsRead = record {
  full = λ timestamp report. ones-truthy timestamp;
  read = λ timestamp report. ("report", ap (λ n. value (pred n, "report")) (size-ones timestamp));
}

abbrev tea : Product
tea = record {
  id = "p1";
  name = "tea";
  price = pos 2000;
  cost = pos 1000;
  stock = pos 1000;
  min_stock = pos 5000;
  wholesale_price = pos 0;
  category = "hot";
  image = "";
  barcode = "111";
  supplier = none;
  description = none;
}

-- The second click comes too early, also after a visit to another page and after the restart.
abbrev day : List Event
day =
    clicked 1
    ∷ listed (some (tea ∷ []))
    ∷ reported (some "low")
    ∷ left
    ∷ clicked 8
    ∷ restarted
    ∷ clicked 9
    ∷ reported (some "low")
    ∷ []

one_analysis : (run codec day (opened codec (λ _. none))).done ≡ 1 ∷ []
unfolding run step mount begin_analysis analysis_listed analysis_done
one_analysis = refl

day-IsPatient : IsPatient codec day (opened codec (λ _. none))
unfolding step mount begin_analysis analysis_listed analysis_done
day-IsPatient = (refl, tt)

done-IsSpaced_example : IsSpaced (run codec day (opened codec (λ _. none))).done
done-IsSpaced_example =
    done-IsSpaced codec codec-IsRead (λ _. none) day refl
      (omega arith, (tt, (tt, (tt, (omega arith, (tt, (omega arith, (tt, tt)))))))) day-IsPatient

-- The page is left during an analysis, and the next one begins 8 ms after it.
abbrev impatient : List Event
impatient =
    clicked 1
    ∷ listed (some (tea ∷ []))
    ∷ left
    ∷ clicked 9
    ∷ listed (some (tea ∷ []))
    ∷ reported (some "low")
    ∷ late (some "low")
    ∷ []

two_at_once : (run codec impatient (opened codec (λ _. none))).done ≡ 1 ∷ 9 ∷ []
unfolding run step mount begin_analysis analysis_listed analysis_done
two_at_once = refl
