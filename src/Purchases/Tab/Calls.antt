-- ===== src/Purchases/Tab/Calls.antt =====
-- Which calls the handlers of the purchase orders make, and what a failed call leaves.
use mathlib.Core.Path.{subst}
use beidar_pos.Prelude.{
  String, ◌≡◌, ◌≢◌, refl, sym, ◌⊎◌, inl, inr, false, Option, none, some, List, [], ◌∷◌, map, arith,
  eq_iff, ◌===◌, or_default, Bool-cases, ltb→lt, ap, ◌∙◌, All,
}
use beidar_pos.Prelude.Int.{pos, ◌<ℤ◌, ◌≤ℤ◌, leb_ℤ, ltb_ℤ}
use beidar_pos.Purchases.Receive.{kept, dropped}
use beidar_pos.Store.{truthy}
use beidar_pos.Confirm.{pressed}
use beidar_pos.Purchases.{
  PurchaseOrder, PurchaseOrderItem, ReceiveOrderItem, items_to_receive, order_of, order_item,
  CreateForm, FormItem,
}
use beidar_pos.Purchases.Tab.{
  TabState, Call, create, receive, pay, cancel, delete, failed, Deed, cancelling, deleting, error,
  selected_id, receive_of, pay_of, create_of, notify,
}
use beidar_pos.Purchases.Tab.Dialogs.{
  Button, create_button, receive_button, pay_button, confirm_button, begin, finish, confirmed_of,
}

-- A list with an element.
abbrev pub HasSome {ℓ} : {A : Type ℓ} → List A → Type 0
HasSome [] = ⊥
HasSome (x ∷ xs) = Unit

-- The lines of an order are those of the form: the same products, quantities and costs, with nothing received.
abbrev pub AreTyped : List FormItem → List PurchaseOrderItem → Type 0
AreTyped [] [] = Unit
AreTyped (f ∷ form) (i ∷ items) =
    (i.product_id ≡ f.product_id)
    × (i.quantity ≡ f.quantity)
    × (i.unit_cost ≡ f.unit_cost)
    × (i.received_qty ≡ pos 0)
    × AreTyped form items
AreTyped _ _ = ⊥

-- The goods are the entries of the dialog with a positive quantity, in their order.
abbrev pub ArePicked : List ReceiveOrderItem → List ReceiveOrderItem → Type 0
ArePicked [] items = items ≡ []
ArePicked (r ∷ rs) items =
    ((pos 0 <ℤ r.received_qty)
      × ((rest : List ReceiveOrderItem) × (items ≡ r ∷ rest) × ArePicked rs rest))
    ⊎ ((r.received_qty ≤ℤ pos 0) × ArePicked rs items)

-- The selected order has the identifier.
abbrev pub IsSelected : Option PurchaseOrder → String → Type 0
IsSelected none id = ⊥
IsSelected (some order) id = order.id ≡ some id

-- What the user of the page has asked for by a call.
abbrev pub IsProper : TabState → Call → Type 0
IsProper s (create order) =
    (order.supplier_id ≢ "")
    × (order.supplier_id ≡ s.create_form.supplier_id)
    × (order.note ≡ s.create_form.note)
    × HasSome order.items
    × AreTyped s.create_form.items order.items
IsProper s (receive id items) =
    IsSelected s.selected_order id × HasSome items × ArePicked s.receive_items items
IsProper s (pay id amount method) =
    IsSelected s.selected_order id
    × (amount ≡ s.pay_amount)
    × (method ≡ s.pay_method)
    × (pos 0 <ℤ amount)
IsProper s (cancel id) = pressed s.confirm_state ≡ some (cancelling id)
IsProper s (delete id) = pressed s.confirm_state ≡ some (deleting id)

mapped-AreTyped : (items : List FormItem) → AreTyped items (map order_item items)
mapped-AreTyped [] = tt
mapped-AreTyped (i ∷ items) = (refl, refl, refl, refl, mapped-AreTyped items)

picked : (rs : List ReceiveOrderItem) → ArePicked rs (items_to_receive rs)
unfolding items_to_receive
picked [] = refl
picked (r ∷ rs) = elim (Bool-cases (ltb_ℤ (pos 0) r.received_qty)) [
  | inl some_left ↦
      inl (ltb→lt _ _ some_left, (items_to_receive rs, kept r rs some_left, picked rs))
  | inr nothing ↦
      inr (ground (arith, nothing), subst (ArePicked rs) (sym (dropped r rs nothing)) (picked rs))
]

truthy_same : (o : Option String) (id : String) → truthy o ≡ some id → o ≡ some id
truthy_same none id h = absurd (cc)
truthy_same (some t) id h = ground (arith, h)

chosen_order :
    (o : Option PurchaseOrder) (id : String)
    → elim o [ none ↦ none | some order ↦ truthy order.id ] ≡ some id
    → IsSelected o id
chosen_order none id h = absurd (cc)
chosen_order (some order) id h = truthy_same order.id id h

-- No order is selected, or one without an identifier.
abbrev pub IsUnselected : Option PurchaseOrder → Type 0
IsUnselected none = Unit
IsUnselected (some order) = (order.id ≡ none) ⊎ (order.id ≡ some "")

-- What is missing for the call of a button.
abbrev pub Lacks : Button → TabState → Type 0
Lacks create_button s = (s.create_form.supplier_id ≡ "") ⊎ (s.create_form.items ≡ [])
Lacks receive_button s =
    IsUnselected s.selected_order ⊎ All (λ r. r.received_qty ≤ℤ pos 0) s.receive_items
Lacks pay_button s = IsUnselected s.selected_order ⊎ (s.pay_amount ≤ℤ pos 0)
Lacks confirm_button s = pressed s.confirm_state ≡ none

truthy_missing : (o : Option String) → truthy o ≡ none → (o ≡ none) ⊎ (o ≡ some "")
truthy_missing none h = inl refl
truthy_missing (some t) h = inr (ap some (ground (arith, h, eq_iff t "")))

no_order :
    (o : Option PurchaseOrder)
    → elim o [ none ↦ none | some order ↦ truthy order.id ] ≡ none
    → IsUnselected o
no_order none h = tt
no_order (some order) h = truthy_missing order.id h

none_picked : (rs : List ReceiveOrderItem) → ArePicked rs [] → All (λ r. r.received_qty ≤ℤ pos 0) rs
none_picked [] h = tt
none_picked (r ∷ rs) (inl (some_left, (rest, e, h))) = absurd (cc)
none_picked (r ∷ rs) (inr (nothing, h)) = (nothing, none_picked rs h)

-- What a button's handler does before it awaits: it makes a proper call and leaves the state; or something is
-- missing for one, it makes none and only gives a notice at most.
abbrev pub Outcome : Button → TabState → Option Call × TabState → Type 0
Outcome b s (none, s') =
    Lacks b s × ((s' ≡ s) ⊎ ((message : String) × (s' ≡ notify message error s)))
Outcome b s (some call, s') = IsProper s call × (s' ≡ s)

by_items :
    (form : CreateForm) (items : List FormItem) (s : TabState)
    → form ≡ s.create_form
    → (form.supplier_id === "") ≡ false
    → form.items ≡ items
    → Outcome create_button s (create_of form items s)
unfolding order_of
by_items form [] s same chosen e = (inr (ap (λ f. f.items) (sym same) ∙ e), inr (_, refl))
by_items form (i ∷ items) s same chosen e = (
  (
    λ bad. absurd (ground (arith, eq_iff form.supplier_id "")),
    ap (λ f. f.supplier_id) same,
    ap (λ f. f.note) same,
    subst (λ l. HasSome (map order_item l)) (sym e) tt,
    subst (λ f. AreTyped f.items (map order_item form.items)) same (mapped-AreTyped form.items),
  ),
  refl,
)

by_create : (s : TabState) → Outcome create_button s (begin create_button s)
unfolding begin
by_create s = elim (Bool-cases (s.create_form.supplier_id === "")) [
  | inl none_chosen ↦
      rw none_chosen
        (inl (ground (arith, none_chosen, eq_iff s.create_form.supplier_id "")), inr (_, refl))
  | inr chosen ↦ rw chosen (by_items s.create_form s.create_form.items s refl chosen refl)
]

by_receive :
    (id : Option String) (items : List ReceiveOrderItem) (s : TabState)
    → selected_id s ≡ id
    → ArePicked s.receive_items items
    → Outcome receive_button s (receive_of id items s)
by_receive none items s e all = (inl (no_order s.selected_order e), inl refl)
by_receive (some id) [] s e all = (inr (none_picked s.receive_items all), inr (_, refl))
by_receive (some id) (r ∷ rs) s e all = ((chosen_order s.selected_order id e, tt, all), refl)

by_pay :
    (id : Option String) (s : TabState) → selected_id s ≡ id → Outcome pay_button s (pay_of id s)
by_pay none s e = (inl (no_order s.selected_order e), inr (_, refl))
by_pay (some id) s e = elim (Bool-cases (leb_ℤ s.pay_amount (pos 0))) [
  | inl low ↦ rw low (inr (ground (arith, low)), inr (_, refl))
  | inr high ↦ rw high ((chosen_order s.selected_order id e, refl, refl, ground arith), refl)
]

by_confirm :
    (deed : Option Deed) (s : TabState)
    → pressed s.confirm_state ≡ deed
    → Outcome confirm_button s (confirmed_of deed s)
by_confirm none s e = (e, inl refl)
by_confirm (some (cancelling id)) s e = (e, refl)
by_confirm (some (deleting id)) s e = (e, refl)

-- Every button of the page either calls the backend for what its user has asked for, leaving the state as it
-- is, or does not call it and leaves the state but for a notice. What was asked for: a new order has the supplier,
-- which is not empty, and the note of the form and its lines, at least one; the goods received are of the selected
-- order and are the entries typed with a positive quantity, at least one; a payment is of the selected order, in the
-- typed way and of the typed amount, which is positive; an order is cancelled or deleted by its open dialog only. It
-- does not call only where the supplier, the lines, an order with an identifier, a positive quantity or amount, or
-- the open dialog is missing.
pub calls_are_proper : (b : Button) (s : TabState) → Outcome b s (begin b s)
unfolding begin
calls_are_proper create_button s = by_create s
calls_are_proper receive_button s = by_receive _ _ s refl (picked s.receive_items)
calls_are_proper pay_button s = by_pay _ s refl
calls_are_proper confirm_button s = by_confirm _ s refl

-- A call that fails leaves the form, the selected order, the goods and the amount typed in and the windows as
-- they are, reloads nothing, and gives one error notice, with the message of the error if it has one.
pub failure_keeps :
    (call : Call) (message : Option String) (s : TabState)
    → let s' = finish call (failed message) s in
      (s' ≡ record s { notices = s'.notices; confirm_state = s'.confirm_state })
      × ((fallback : String) × (s'.notices ≡ (or_default message fallback, error) ∷ s.notices))
unfolding finish
failure_keeps (create order) message s = (refl, (_, refl))
failure_keeps (receive id items) message s = (refl, (_, refl))
failure_keeps (pay id amount method) message s = (refl, (_, refl))
failure_keeps (cancel id) message s = (refl, (_, refl))
failure_keeps (delete id) message s = (refl, (_, refl))
