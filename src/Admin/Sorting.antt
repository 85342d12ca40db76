-- ===== src/Admin/Sorting.antt =====
-- The order in which the licences page shows its licences. The `sort` of a list is stable; here it inserts
-- each licence before those that it does not have to follow.
use beidar_pos.Prelude.{
  ℕ, ◌+◌, ◌≤◌, ◌≡◌, refl, ◌∙◌, sym, inl, inr, String, Bool, true, false, List, [], ◌∷◌, leb,
  if◌then◌else◌, arith, Bool-cases, ap,
}
use beidar_pos.Admin.{
  AdminLicense, expiry_of, count, StatusFilter, PaymentFilter, filtered_licenses,
}

pub data SortOption : Type 0 where
  newest oldest expiry_soon expiry_late : SortOption

-- The comparison gives 0 or less.
abbrev pub may_precede : SortOption → AdminLicense → AdminLicense → Bool
may_precede newest a b = leb b.created_at a.created_at
may_precede oldest a b = leb a.created_at b.created_at
may_precede expiry_soon a b = leb (expiry_of a) (expiry_of b)
may_precede expiry_late a b = leb (expiry_of b) (expiry_of a)

unfoldable pub insert : SortOption → AdminLicense → List AdminLicense → List AdminLicense
insert option l [] = l ∷ []
insert option l (m ∷ rest) =
    let behind = insert option l rest in if may_precede option l m then l ∷ m ∷ rest else m ∷ behind

unfoldable pub sorted : SortOption → List AdminLicense → List AdminLicense
sorted option [] = []
sorted option (l ∷ rest) = insert option l (sorted option rest)

-- `filteredLicenses`
unfoldable pub visible_licenses :
    (String → Bool)
    → ℕ
    → StatusFilter
    → PaymentFilter
    → SortOption
    → List AdminLicense
    → List AdminLicense
visible_licenses found now status payment option licenses =
    sorted option (filtered_licenses found now status payment licenses)

-- What the options mean: the newest first, the oldest first, the next to expire first, the last to expire first.
abbrev pub IsBefore : SortOption → AdminLicense → AdminLicense → Type 0
IsBefore newest a b = b.created_at ≤ a.created_at
IsBefore oldest a b = a.created_at ≤ b.created_at
IsBefore expiry_soon a b = expiry_of a ≤ expiry_of b
IsBefore expiry_late a b = expiry_of b ≤ expiry_of a

-- Each licence is before the next.
abbrev pub AreInOrder : SortOption → List AdminLicense → Type 0
AreInOrder option [] = Unit
AreInOrder option (l ∷ []) = Unit
AreInOrder option (l ∷ m ∷ rest) = IsBefore option l m × AreInOrder option (m ∷ rest)

-- Each licence may precede the next.
abbrev IsOrdered : SortOption → List AdminLicense → Type 0
IsOrdered option [] = Unit
IsOrdered option (l ∷ []) = Unit
IsOrdered option (l ∷ m ∷ rest) = (may_precede option l m ≡ true) × IsOrdered option (m ∷ rest)

may_precede-total :
    (option : SortOption) (a b : AdminLicense)
    → may_precede option a b ≡ false
    → may_precede option b a ≡ true
may_precede-total newest a b h = ground arith
may_precede-total oldest a b h = ground arith
may_precede-total expiry_soon a b h = ground arith
may_precede-total expiry_late a b h = ground arith

insert_below :
    (option : SortOption) (m l : AdminLicense) (rest : List AdminLicense)
    → IsOrdered option (m ∷ rest)
    → may_precede option m l ≡ true
    → IsOrdered option (m ∷ insert option l rest)
unfolding insert
insert_below option m l [] o h = (h, tt)
insert_below option m l (n ∷ rest) o h = elim (Bool-cases (may_precede option l n)) [
  | inl first ↦ rw first (h, (first, o.1))
  | inr later ↦
      rw later (o.0, insert_below option n l rest o.1 (may_precede-total option l n later))
]

insert-IsOrdered :
    (option : SortOption) (l : AdminLicense) (licenses : List AdminLicense)
    → IsOrdered option licenses
    → IsOrdered option (insert option l licenses)
unfolding insert
insert-IsOrdered option l [] o = tt
insert-IsOrdered option l (m ∷ rest) o = elim (Bool-cases (may_precede option l m)) [
  | inl first ↦ rw first (first, o)
  | inr later ↦ rw later (insert_below option m l rest o (may_precede-total option l m later))
]

sorted-IsOrdered :
    (option : SortOption) (licenses : List AdminLicense) → IsOrdered option (sorted option licenses)
unfolding sorted
sorted-IsOrdered option [] = tt
sorted-IsOrdered option (l ∷ rest) =
    insert-IsOrdered option l (sorted option rest) (sorted-IsOrdered option rest)

-- How many of a list of one licence and more satisfy a test.
count-cons :
    (p : AdminLicense → Bool) (l : AdminLicense) (licenses : List AdminLicense)
    → count p (l ∷ licenses) ≡ (if p l then 1 else 0) + count p licenses
count-cons p l licenses = ground arith

count-insert :
    (p : AdminLicense → Bool) (option : SortOption) (l : AdminLicense)
    (licenses : List AdminLicense)
    → count p (insert option l licenses) ≡ count p (l ∷ licenses)
unfolding insert
count-insert p option l [] = refl
count-insert p option l (m ∷ rest) = elim (Bool-cases (may_precede option l m)) [
  | inl first ↦ rw first refl
  | inr later ↦ rw later (
      omega (
        arith,
        count-cons p m (insert option l rest),
        count-insert p option l rest,
        count-cons p l rest,
        count-cons p l (m ∷ rest),
        count-cons p m rest,
      ))
]

count-sorted :
    (p : AdminLicense → Bool) (option : SortOption) (licenses : List AdminLicense)
    → count p (sorted option licenses) ≡ count p licenses
unfolding sorted
count-sorted p option [] = refl
count-sorted p option (l ∷ rest) =
    count-insert p option l (sorted option rest)
    ∙ count-cons p l (sorted option rest)
    ∙ ap (λ n. (if p l then 1 else 0) + n) (count-sorted p option rest)
    ∙ sym (count-cons p l rest)

may_precede-IsBefore :
    (option : SortOption) (a b : AdminLicense) → may_precede option a b ≡ true → IsBefore option a b
may_precede-IsBefore newest a b h = ground arith
may_precede-IsBefore oldest a b h = ground arith
may_precede-IsBefore expiry_soon a b h = ground arith
may_precede-IsBefore expiry_late a b h = ground arith

IsOrdered-AreInOrder :
    (option : SortOption) (licenses : List AdminLicense)
    → IsOrdered option licenses
    → AreInOrder option licenses
IsOrdered-AreInOrder option [] o = tt
IsOrdered-AreInOrder option (l ∷ []) o = tt
IsOrdered-AreInOrder option (l ∷ m ∷ rest) o =
    (may_precede-IsBefore option l m o.0, IsOrdered-AreInOrder option (m ∷ rest) o.1)

-- The page shows its licences in the chosen order: by the time they were created, later or earlier ones first, or
-- by the time they expire, earlier or later ones first. It shows exactly the filtered ones, each as often as it is
-- there: every test counts as many of them.
pub shown_in_order :
    (found : String → Bool) (now : ℕ) (status : StatusFilter) (payment : PaymentFilter)
    (option : SortOption) (licenses : List AdminLicense) (p : AdminLicense → Bool)
    → AreInOrder option (visible_licenses found now status payment option licenses)
      × (count p (visible_licenses found now status payment option licenses)
          ≡ count p (filtered_licenses found now status payment licenses))
unfolding visible_licenses
shown_in_order found now status payment option licenses p = (
  IsOrdered-AreInOrder option (sorted option (filtered_licenses found now status payment licenses))
      (sorted-IsOrdered option (filtered_licenses found now status payment licenses)),
  count-sorted p option (filtered_licenses found now status payment licenses),
)
