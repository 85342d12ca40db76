-- ===== src/Purchases/Receive.antt =====
-- The dialog that receives goods of an order: what it can send.
use native.Mathlib.Nat.{le_refl}
use beidar_pos.Prelude.{
  keep_if_yes, keep_if_no, String, ◌≡◌, refl, ◌∙◌, ap, ◌⊎◌, inl, inr, Bool, true, false, ◌&&◌,
  Option, List, [], ◌∷◌, map, arith, eq_iff, ◌===◌, Bool-cases, any, All,
}
use beidar_pos.Prelude.Int.{ℤ, pos, ◌≤ℤ◌, leb_ℤ, ltb_ℤ}
use beidar_pos.Prelude.Keys.{has_key, HasDistinctKeys}
use beidar_pos.Purchases.{
  PurchaseOrder, PurchaseOrderItem, ReceiveOrderItem, remaining, receive_all, set_received,
  items_to_receive,
}

abbrev pub item_key : PurchaseOrderItem → String
item_key i = i.product_id

-- What is typed into the dialog, one input after the other.
unfoldable pub typed_all :
    List (PurchaseOrderItem × Option ℤ) → List ReceiveOrderItem → List ReceiveOrderItem
typed_all [] rs = rs
typed_all ((item, typed) ∷ edits) rs = typed_all edits (set_received item typed rs)

-- The entries of the dialog stand for the lines of the order, none with more than is left of its line.
abbrev Matches : List PurchaseOrderItem → List ReceiveOrderItem → Type 0
Matches [] [] = Unit
Matches (i ∷ items) (r ∷ rs) =
    (r.product_id ≡ i.product_id) × (r.received_qty ≤ℤ remaining i) × Matches items rs
Matches _ _ = ⊥

-- The lines for the product of `item` have as much left as `item`.
abbrev Agrees : PurchaseOrderItem → List PurchaseOrderItem → Type 0
Agrees item [] = Unit
Agrees item (i ∷ items) =
    (i.product_id ≡ item.product_id → remaining item ≤ℤ remaining i) × Agrees item items

-- A line of an order.
abbrev pub IsLine : PurchaseOrderItem → List PurchaseOrderItem → Type 0
IsLine item [] = ⊥
IsLine item (i ∷ items) = (item ≡ i) ⊎ IsLine item items

other-Agrees :
    (item : PurchaseOrderItem) (items : List PurchaseOrderItem)
    → has_key item_key item.product_id items ≡ false
    → Agrees item items
unfolding has_key
other-Agrees item [] h = tt
other-Agrees item (i ∷ items) h = (
  λ e. absurd (ground (arith, eq_iff i.product_id item.product_id)),
  other-Agrees item items (ground arith),
)

IsLine-has_key :
    (item : PurchaseOrderItem) (items : List PurchaseOrderItem)
    → IsLine item items
    → has_key item_key item.product_id items ≡ true
unfolding has_key
IsLine-has_key item [] m = absurd m
IsLine-has_key item (i ∷ items) (inl e) =
    ground (arith, eq_iff i.product_id item.product_id, ap item_key e)
IsLine-has_key item (i ∷ items) (inr m) = ground (arith, IsLine-has_key item items m)

IsLine-Agrees :
    (item : PurchaseOrderItem) (items : List PurchaseOrderItem)
    → HasDistinctKeys item_key items
    → IsLine item items
    → Agrees item items
IsLine-Agrees item [] d m = tt
IsLine-Agrees item (i ∷ items) d (inl e) = (
  λ same. rw (ap remaining e) (le_refl _),
  other-Agrees item items (ap (λ j. has_key item_key (item_key j) items) e ∙ d.0),
)
IsLine-Agrees item (i ∷ items) d (inr m) = (
  λ same.
      absurd
        (ground (arith, IsLine-has_key item items m, d.0, ap (λ k. has_key item_key k items) same)),
  IsLine-Agrees item items d.1 m,
)

set_received-Matches :
    (item : PurchaseOrderItem) (typed : Option ℤ) (items : List PurchaseOrderItem)
    (rs : List ReceiveOrderItem)
    → Agrees item items
    → Matches items rs
    → Matches items (set_received item typed rs)
unfolding set_received
set_received-Matches item typed [] [] a m = tt
set_received-Matches item typed [] (r ∷ rs) a m = absurd m
set_received-Matches item typed (i ∷ items) [] a m = absurd m
set_received-Matches item typed (i ∷ items) (r ∷ rs) a m = (
  ground (arith, m.0),
  ground (arith, m.0, m.1, a.0, eq_iff r.product_id item.product_id),
  set_received-Matches item typed items rs a.1 m.2,
)

receive_all-Matches :
    (items : List PurchaseOrderItem)
    → Matches items
        (map (λ i. record { product_id = i.product_id; received_qty = remaining i }) items)
receive_all-Matches [] = tt
receive_all-Matches (i ∷ items) = (refl, omega arith, receive_all-Matches items)

typed_all-Matches :
    (edits : List (PurchaseOrderItem × Option ℤ)) (items : List PurchaseOrderItem)
    (rs : List ReceiveOrderItem)
    → HasDistinctKeys item_key items
    → All (λ e. IsLine e.0 items) edits
    → Matches items rs
    → Matches items (typed_all edits rs)
unfolding typed_all
typed_all-Matches [] items rs d l m = m
typed_all-Matches ((item, typed) ∷ edits) items rs d l m =
    typed_all-Matches edits items (set_received item typed rs) d l.1
      (set_received-Matches item typed items rs (IsLine-Agrees item items d l.0) m)

-- Something of a line of the order is left, and the entry is at most that.
abbrev pub is_covered : List PurchaseOrderItem → ReceiveOrderItem → Bool
is_covered items r =
    ltb_ℤ (pos 0) r.received_qty
    && any (λ i. i.product_id === r.product_id && leb_ℤ r.received_qty (remaining i)) items

AllCovered-cons :
    (i : PurchaseOrderItem) (items : List PurchaseOrderItem) (rs : List ReceiveOrderItem)
    → All (λ r. is_covered items r ≡ true) rs
    → All (λ r. is_covered (i ∷ items) r ≡ true) rs
AllCovered-cons i items [] h = tt
AllCovered-cons i items (r ∷ rs) h = (ground (arith, h.0), AllCovered-cons i items rs h.1)

pub kept :
    (r : ReceiveOrderItem) (rs : List ReceiveOrderItem)
    → ltb_ℤ (pos 0) r.received_qty ≡ true
    → items_to_receive (r ∷ rs) ≡ r ∷ items_to_receive rs
unfolding items_to_receive
kept r rs h = keep_if_yes _ r rs h

pub dropped :
    (r : ReceiveOrderItem) (rs : List ReceiveOrderItem)
    → ltb_ℤ (pos 0) r.received_qty ≡ false
    → items_to_receive (r ∷ rs) ≡ items_to_receive rs
unfolding items_to_receive
dropped r rs h = keep_if_no _ r rs h

Matches-covered :
    (items : List PurchaseOrderItem) (rs : List ReceiveOrderItem)
    → Matches items rs
    → All (λ r. is_covered items r ≡ true) (items_to_receive rs)
unfolding items_to_receive
Matches-covered [] [] m = tt
Matches-covered [] (r ∷ rs) m = absurd m
Matches-covered (i ∷ items) [] m = tt
Matches-covered (i ∷ items) (r ∷ rs) m = elim (Bool-cases (ltb_ℤ (pos 0) r.received_qty)) [
  | inl some_left ↦ rw (kept r rs some_left) (
    ground (arith, m.0, m.1, eq_iff i.product_id r.product_id),
    AllCovered-cons i items (items_to_receive rs) (Matches-covered items rs m.2),
  )
  | inr nothing ↦
      rw (dropped r rs nothing)
        (AllCovered-cons i items (items_to_receive rs) (Matches-covered items rs m.2))
]

-- Whatever numbers are typed into the dialog for the lines of an order without two lines for a product, every
-- entry that is sent is positive, and is at most what is left of the order's line for its product.
pub receives_at_most_what_is_left :
    (order : PurchaseOrder) (edits : List (PurchaseOrderItem × Option ℤ))
    → HasDistinctKeys item_key order.items
    → All (λ e. IsLine e.0 order.items) edits
    → All
        (λ r. is_covered order.items r ≡ true)
        (items_to_receive (typed_all edits (receive_all order)))
unfolding receive_all
receives_at_most_what_is_left order edits d l =
    Matches-covered order.items _
      (typed_all-Matches edits order.items _ d l (receive_all-Matches order.items))
