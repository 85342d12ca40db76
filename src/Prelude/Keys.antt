-- ===== src/Prelude/Keys.antt =====
-- Lists whose elements have a text as key: which keys they have, and that none has two elements.
use beidar_pos.Prelude.{
  String, ◌≡◌, refl, Bool, false, ◌||◌, List, [], ◌∷◌, ◌++◌, map, arith, eq_iff, ◌===◌, any,
  keep_if, find, is_some,
}

module _ {ℓ} {A : Type ℓ} (key : A → String) where
  unfoldable pub has_key : String → List A → Bool
  has_key k xs = any (λ x. key x === k) xs

  abbrev pub HasDistinctKeys : List A → Type 0
  HasDistinctKeys [] = Unit
  HasDistinctKeys (x ∷ xs) = (has_key (key x) xs ≡ false) × HasDistinctKeys xs

  pub find-has_key :
      (k : String) (xs : List A) → is_some (find (λ x. key x === k) xs) ≡ has_key k xs
  unfolding has_key
  find-has_key k [] = refl
  find-has_key k (x ∷ xs) = ground (arith, find-has_key k xs)

  pub has_key-keep_if :
      (k : String) (p : A → Bool) (xs : List A)
      → has_key k xs ≡ false
      → has_key k (keep_if p xs) ≡ false
  unfolding has_key
  has_key-keep_if k p [] h = refl
  has_key-keep_if k p (x ∷ xs) h = ground (arith, has_key-keep_if k p xs)

  pub keep_if-HasDistinctKeys :
      (p : A → Bool) (xs : List A) → HasDistinctKeys xs → HasDistinctKeys (keep_if p xs)
  keep_if-HasDistinctKeys p [] d = tt
  keep_if-HasDistinctKeys p (x ∷ xs) d =
      ground (arith, keep_if-HasDistinctKeys p xs d.1, has_key-keep_if (key x) p xs d.0)

  has_key-append :
      (k : String) (xs : List A) (y : A)
      → has_key k (xs ++ (y ∷ [])) ≡ (has_key k xs || key y === k)
  unfolding has_key
  has_key-append k [] y = ground arith
  has_key-append k (x ∷ xs) y = ground (arith, has_key-append k xs y)

  pub append-HasDistinctKeys :
      (xs : List A) (y : A)
      → HasDistinctKeys xs
      → has_key (key y) xs ≡ false
      → HasDistinctKeys (xs ++ (y ∷ []))
  unfolding has_key
  append-HasDistinctKeys [] y d n = (refl, tt)
  append-HasDistinctKeys (x ∷ xs) y d n = ground (
    arith,
    append-HasDistinctKeys xs y d.1,
    has_key-append (key x) xs y,
    eq_iff (key x) (key y),
    eq_iff (key y) (key x),
  )

  pub has_key-map :
      (f : A → A) (same : (x : A) → key (f x) ≡ key x) (k : String) (xs : List A)
      → has_key k (map f xs) ≡ has_key k xs
  unfolding has_key
  has_key-map f same k [] = refl
  has_key-map f same k (x ∷ xs) = rw (same x, has_key-map f same k xs) refl

  pub map-HasDistinctKeys :
      (f : A → A) (same : (x : A) → key (f x) ≡ key x) (xs : List A)
      → HasDistinctKeys xs
      → HasDistinctKeys (map f xs)
  map-HasDistinctKeys f same [] d = tt
  map-HasDistinctKeys f same (x ∷ xs) d =
      (rw (same x, has_key-map f same (key x) xs) d.0, map-HasDistinctKeys f same xs d.1)
