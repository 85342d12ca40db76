-- ===== src/Catalog/Labels.antt =====
-- The queue of labels to print and the selection of the products page.
use beidar_pos.Prelude.{
  ℕ, zero, suc, ◌≡◌, refl, ◌∙◌, inl, inr, String, Bool, false, not, List, [], ◌∷◌, ◌++◌, arith,
  eq_iff, ◌===◌, if◌then◌else◌, any, keep_if, All, Bool-cases,
}
use beidar_pos.Prelude.Int.{ℤ, pos, ◌+ℤ◌, ◌≤ℤ◌, max_ℤ, +ℤ_parts}
use beidar_pos.Prelude.Keys.{has_key, HasDistinctKeys}
use beidar_pos.Cart.{Product}

pub record Label : Type 0 where
  pub product : Product
  pub qty : ℤ

-- `addToPrintQueue`: more of the first entry of the product, or a new entry at the end.
unfoldable pub add_to_print_queue : Product → ℤ → List Label → List Label
add_to_print_queue p qty [] = record { product = p; qty = qty } ∷ []
add_to_print_queue p qty (l ∷ queue) =
    let rest = add_to_print_queue p qty queue in
    if l.product.id === p.id then record l { qty = l.qty +ℤ qty } ∷ queue else l ∷ rest

unfoldable pub update_queue_qty : ℕ → ℤ → List Label → List Label
update_queue_qty index qty [] = []
update_queue_qty zero qty (l ∷ queue) = record l { qty = max_ℤ (pos 1) qty } ∷ queue
update_queue_qty (suc index) qty (l ∷ queue) = l ∷ update_queue_qty index qty queue

unfoldable pub remove_from_queue : ℕ → List Label → List Label
remove_from_queue index [] = []
remove_from_queue zero (l ∷ queue) = queue
remove_from_queue (suc index) (l ∷ queue) = l ∷ remove_from_queue index queue

pub data QueueAction : Type 0 where
  added : Product → ℤ → QueueAction
  typed : ℕ → ℤ → QueueAction
  removed : ℕ → QueueAction

unfoldable pub step : QueueAction → List Label → List Label
unfolding add_to_print_queue update_queue_qty remove_from_queue
step (added p qty) queue = add_to_print_queue p qty queue
step (typed index qty) queue = update_queue_qty index qty queue
step (removed index) queue = remove_from_queue index queue

unfoldable pub run : List QueueAction → List Label → List Label
run [] queue = queue
run (a ∷ actions) queue = run actions (step a queue)

abbrev pub label_key : Label → String
label_key l = l.product.id

-- One entry for a product, and at least one label of each.
pub record IsPrintQueue (queue : List Label) : Type 0 where
  pub distinct : HasDistinctKeys label_key queue
  pub positive : All (λ l. pos 1 ≤ℤ l.qty) queue

-- The page adds at least one label.
abbrev pub IsAsked : QueueAction → Type 0
IsAsked (added p qty) = pos 1 ≤ℤ qty
IsAsked _ = Unit

has_key-added :
    (k : String) (p : Product) (qty : ℤ) (queue : List Label)
    → has_key label_key k queue ≡ false
    → (p.id === k) ≡ false
    → has_key label_key k (add_to_print_queue p qty queue) ≡ false
unfolding has_key add_to_print_queue
has_key-added k p qty [] h n = ground (arith, n)
has_key-added k p qty (l ∷ queue) h n = ground (arith, h, n, has_key-added k p qty queue)

added-IsPrintQueue :
    (p : Product) (qty : ℤ) (queue : List Label)
    → pos 1 ≤ℤ qty
    → HasDistinctKeys label_key queue
    → All (λ l. pos 1 ≤ℤ l.qty) queue
    → HasDistinctKeys label_key (add_to_print_queue p qty queue)
      × All (λ l. pos 1 ≤ℤ l.qty) (add_to_print_queue p qty queue)
unfolding add_to_print_queue has_key
added-IsPrintQueue p qty [] h d a = ((refl, tt), (h, tt))
added-IsPrintQueue p qty (l ∷ queue) h d a = elim (Bool-cases (l.product.id === p.id)) [
  | inl same ↦ rw same (d, (omega (arith, h, a.0, +ℤ_parts l.qty qty), a.1))
  | inr other ↦
      let rest = added-IsPrintQueue p qty queue h d.1 a.1 in
      rw other (
        (
          has_key-added l.product.id p qty queue d.0
              (ground (arith, other, eq_iff l.product.id p.id, eq_iff p.id l.product.id)),
          rest.0,
        ),
        (a.0, rest.1),
      )
]

has_key-typed :
    (k : String) (index : ℕ) (qty : ℤ) (queue : List Label)
    → has_key label_key k (update_queue_qty index qty queue) ≡ has_key label_key k queue
unfolding has_key update_queue_qty
has_key-typed k index qty [] = refl
has_key-typed k zero qty (l ∷ queue) = refl
has_key-typed k (suc index) qty (l ∷ queue) = ground (arith, has_key-typed k index qty queue)

at_least_one : (qty : ℤ) → pos 1 ≤ℤ max_ℤ (pos 1) qty
at_least_one qty = ground arith

typed-IsPrintQueue :
    (index : ℕ) (qty : ℤ) (queue : List Label)
    → HasDistinctKeys label_key queue
    → All (λ l. pos 1 ≤ℤ l.qty) queue
    → HasDistinctKeys label_key (update_queue_qty index qty queue)
      × All (λ l. pos 1 ≤ℤ l.qty) (update_queue_qty index qty queue)
unfolding update_queue_qty
typed-IsPrintQueue index qty [] d a = (tt, tt)
typed-IsPrintQueue zero qty (l ∷ queue) d a = (d, (at_least_one qty, a.1))
typed-IsPrintQueue (suc index) qty (l ∷ queue) d a =
    let rest = typed-IsPrintQueue index qty queue d.1 a.1 in
    ((has_key-typed l.product.id index qty queue ∙ d.0, rest.0), (a.0, rest.1))

has_key-removed :
    (k : String) (index : ℕ) (queue : List Label)
    → has_key label_key k queue ≡ false
    → has_key label_key k (remove_from_queue index queue) ≡ false
unfolding has_key remove_from_queue
has_key-removed k index [] h = refl
has_key-removed k zero (l ∷ queue) h = ground (arith, h)
has_key-removed k (suc index) (l ∷ queue) h = ground (arith, h, has_key-removed k index queue)

removed-IsPrintQueue :
    (index : ℕ) (queue : List Label)
    → HasDistinctKeys label_key queue
    → All (λ l. pos 1 ≤ℤ l.qty) queue
    → HasDistinctKeys label_key (remove_from_queue index queue)
      × All (λ l. pos 1 ≤ℤ l.qty) (remove_from_queue index queue)
unfolding remove_from_queue
removed-IsPrintQueue index [] d a = (tt, tt)
removed-IsPrintQueue zero (l ∷ queue) d a = (d.1, a.1)
removed-IsPrintQueue (suc index) (l ∷ queue) d a =
    let rest = removed-IsPrintQueue index queue d.1 a.1 in
    ((has_key-removed l.product.id index queue d.0, rest.0), (a.0, rest.1))

step-IsPrintQueue :
    (a : QueueAction) (queue : List Label)
    → IsAsked a
    → IsPrintQueue queue
    → IsPrintQueue (step a queue)
unfolding step
step-IsPrintQueue (added p qty) queue h q =
    let r = added-IsPrintQueue p qty queue h q.distinct q.positive in
    record { distinct = r.0; positive = r.1 }
step-IsPrintQueue (typed index qty) queue h q =
    let r = typed-IsPrintQueue index qty queue q.distinct q.positive in
    record { distinct = r.0; positive = r.1 }
step-IsPrintQueue (removed index) queue h q =
    let r = removed-IsPrintQueue index queue q.distinct q.positive in
    record { distinct = r.0; positive = r.1 }

-- The queue of labels has one entry for a product and at least one label of each, whatever is added to it, typed
-- and removed, if at least one label is added at a time.
pub run-IsPrintQueue :
    (actions : List QueueAction) (queue : List Label)
    → All IsAsked actions
    → IsPrintQueue queue
    → IsPrintQueue (run actions queue)
unfolding run
run-IsPrintQueue [] queue h q = q
run-IsPrintQueue (a ∷ actions) queue h q =
    run-IsPrintQueue actions (step a queue) h.1 (step-IsPrintQueue a queue h.0 q)

abbrev pub contains : String → List String → Bool
contains id ids = any (λ i. i === id) ids

unfoldable pub toggle_select : String → List String → List String
toggle_select id ids =
    if contains id ids then keep_if (λ i. not (i === id)) ids else ids ++ (id ∷ [])
