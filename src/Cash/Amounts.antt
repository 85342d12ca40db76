-- ===== src/Cash/Amounts.antt =====
-- What the proposed amounts are.
use mathlib.Core.Path.{subst}
use beidar_pos.Cart.{CartItem}
use beidar_pos.Cart.Totals.{total, change, thousandths}
use beidar_pos.Cart.Totals.Bounds.{change_exact}
use beidar_pos.Prelude.{
  Option, ℕ, zero, suc, ◌≤◌, ◌≡◌, refl, ap, sym, inl, inr, false, not, ◌&&◌, ◌||◌, List, [], ◌∷◌,
  ◌++◌, length, take, any, ltb, ◌==◌, All, All-append, Bool-cases, arith, length-append,
}
use beidar_pos.Prelude.Int.{ℤ, pos, ◌+ℤ◌, ◌-ℤ◌, max_ℤ}
use beidar_pos.Cash.{round_up, push_amount, push_all, steps, smart_amounts}

-- No amount stands twice in the list.
abbrev pub IsDistinct : List ℕ → Type 0
IsDistinct [] = Unit
IsDistinct (a ∷ rest) = (any (λ b. b == a) rest ≡ false) × IsDistinct rest

-- Up to four amounts, each enough for the total, and none twice.
abbrev pub IsOffer : ℕ → List ℕ → Type 0
IsOffer total amounts = All (λ a. total ≤ a) amounts × IsDistinct amounts × (length amounts ≤ 4)

any-append :
    (b : ℕ) (xs : List ℕ) (y : ℕ)
    → any (λ a. a == b) (xs ++ (y ∷ [])) ≡ (any (λ a. a == b) xs || y == b)
any-append b [] y = ground arith
any-append b (x ∷ xs) y = ground (arith, any-append b xs y)

append-IsDistinct :
    (xs : List ℕ) (y : ℕ)
    → IsDistinct xs
    → any (λ a. a == y) xs ≡ false
    → IsDistinct (xs ++ (y ∷ []))
append-IsDistinct [] y d n = (refl, tt)
append-IsDistinct (x ∷ xs) y d n = ground (arith, append-IsDistinct xs y d.1, any-append x xs y)

push_amount-IsOffer :
    (total to : ℕ) (amounts : List ℕ)
    → IsOffer total amounts
    → IsOffer total (push_amount total to amounts)
unfolding push_amount
push_amount-IsOffer total to amounts o =
    elim (Bool-cases (
      ltb total (round_up total to)
      && not (any (λ a. a == round_up total to) amounts)
      && ltb (length amounts) 4)) [
        | inl new ↦ rw new (
          All-append (λ a. total ≤ a) amounts (round_up total to ∷ []) o.0 (ground arith, tt),
          append-IsDistinct amounts (round_up total to) o.1 (ground arith),
          ground (arith, length-append amounts (round_up total to ∷ [])),
        )
        | inr old ↦ rw old o
      ]

push_all-IsOffer :
    (total : ℕ) (rest amounts : List ℕ)
    → IsOffer total amounts
    → IsOffer total (push_all total rest amounts)
unfolding push_all
push_all-IsOffer total [] amounts o = o
push_all-IsOffer total (to ∷ rest) amounts o =
    push_all-IsOffer total rest (push_amount total to amounts)
      (push_amount-IsOffer total to amounts o)

take_whole : {A : Type 0} (n : ℕ) (xs : List A) → length xs ≤ n → take n xs ≡ xs
take_whole zero [] h = refl
take_whole zero (x ∷ xs) h = absurd (omega arith)
take_whole (suc n) [] h = refl
take_whole (suc n) (x ∷ xs) h = ap (λ t. x ∷ t) (take_whole n xs (omega arith))

smart_amounts-IsOffer : (n : ℕ) → IsOffer (suc n) (smart_amounts (pos (suc n)))
unfolding smart_amounts
smart_amounts-IsOffer n =
    let o =
      push_all-IsOffer (suc n) steps (suc n ∷ []) ((omega arith, tt), (refl, tt), omega arith) in
    subst (IsOffer (suc n)) (sym (take_whole 4 (push_all (suc n) steps (suc n ∷ [])) o.2)) o

exceeds : (n a : ℕ) → suc n ≤ a → max_ℤ (pos 0) (pos a -ℤ pos (suc n)) +ℤ pos (suc n) ≡ pos a
unfolding ◌+ℤ◌ ◌-ℤ◌
exceeds n a h = ground arith

module _ (cart : List CartItem) (discount : ℤ) (tax_rate : Option ℤ) (n : ℕ) where
  -- The change of the amount and the total make the amount.
  abbrev pub Pays : ℕ → Type 0
  Pays a =
      change cart discount tax_rate (thousandths (pos a)) +ℤ total cart discount tax_rate ≡ pos a

  enough-Pays :
      (owed : total cart discount tax_rate ≡ pos (suc n)) (amounts : List ℕ)
      → All (λ a. suc n ≤ a) amounts
      → All Pays amounts
  enough-Pays owed [] h = tt
  enough-Pays owed (a ∷ amounts) h = (
    rw (change_exact cart discount tax_rate (pos a), owed) (exceeds n a h.0),
    enough-Pays owed amounts h.1,
  )

  -- For a cart with something to pay, at most four amounts are proposed, none twice; each is enough for the
  -- total of the cart, and the change that the cart then computes is exact.
  pub offers_pay_cart :
      total cart discount tax_rate ≡ pos (suc n)
      → IsOffer (suc n) (smart_amounts (total cart discount tax_rate))
        × All Pays (smart_amounts (total cart discount tax_rate))
  offers_pay_cart owed = rw owed (
    smart_amounts-IsOffer n,
    enough-Pays owed (smart_amounts (pos (suc n))) (smart_amounts-IsOffer n).0,
  )
