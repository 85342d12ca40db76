-- ===== src/Cart/Session/Restart.antt =====
-- What survives a restart of the sales page: a save of useCart.ts followed by a mount.
use beidar_pos.Prelude.{String, ◌<◌, ◌≡◌, ◌≢◌, ◌∙◌, List, none, some, length, arith, eq_iff}
use beidar_pos.Prelude.Int.{pos}
use beidar_pos.Store.{Storage, truthy, value}
use beidar_pos.Cart.{CartItem, Customer}
use beidar_pos.Cart.Session.{
  CartState, initial, Codec, CartIsRead, CustomerIsRead, restored_customer, restore, save_effect,
  commit, mount,
}

module _ (c : Codec) where
  -- The two commits of a mount, after the restore has queued its updates.
  abbrev settle : CartState × Storage → CartState × Storage
  settle queued = let (s', st') = commit c initial queued in commit c s' (s', st')

  settle_resets :
      (s : CartState) (st : Storage)
      → let after = (settle (s, st)).0 in
        (after.discount ≡ pos 0)
        × (after.payment_method ≡ "cash")
        × (after.received_amount ≡ pos 0)
        × (after.cart ≡ s.cart)
        × (after.selected_customer ≡ s.selected_customer)
  unfolding commit
  settle_resets s st = ground arith

  -- Whatever was stored, a mount ends with no discount and the method "cash": the save effect of the first
  -- commit, which still sees the empty cart, overrides what the restore has queued.
  pub mount_resets :
      (st : Storage)
      → let s = (mount c st).0 in
        (s.discount ≡ pos 0) × (s.payment_method ≡ "cash") × (s.received_amount ≡ pos 0)
  unfolding mount
  mount_resets st =
      let (s, called) = restore c st initial in
      let (a, b, d, _, _) = settle_resets s st in (a, b, d)

  saved_cart :
      (r s : CartState) (st : Storage)
      → 0 < length r.cart
      → (save_effect c r (s, st)).1 "beidar_pos_cart" ≡ some (c.stringify_cart r.cart)
  unfolding save_effect
  saved_cart r s st l = ground arith

  saved_customer :
      (r s : CartState) (st : Storage) {who : Customer}
      → 0 < length r.cart
      → r.selected_customer ≡ some who
      → (save_effect c r (s, st)).1 "beidar_pos_customer"
        ≡ some (c.stringify_customer who.id who.name)
  unfolding save_effect
  saved_customer r s st l e = ground arith

  saved_no_customer :
      (r s : CartState) (st : Storage)
      → 0 < length r.cart
      → r.selected_customer ≡ none
      → (save_effect c r (s, st)).1 "beidar_pos_customer" ≡ st "beidar_pos_customer"
  unfolding save_effect
  saved_no_customer r s st l e = ground arith

  mount-cart : (st : Storage) → (mount c st).0.cart ≡ (restore c st initial).0.cart
  unfolding mount
  mount-cart st = (settle_resets (restore c st initial).0 st).3

  mount-selected_customer :
      (st : Storage) → (mount c st).0.selected_customer ≡ (restore c st initial).0.selected_customer
  unfolding mount
  mount-selected_customer st = (settle_resets (restore c st initial).0 st).4

  restore-cart :
      (st : Storage) {text : String} {items : List CartItem}
      → truthy (st "beidar_pos_cart") ≡ some text
      → c.parse_cart text ≡ value items
      → 0 < length items
      → (restore c st initial).0.cart ≡ items
  unfolding restore
  restore-cart st h p l = ground arith

  restore-customer :
      (st : Storage) {text t : String} {items : List CartItem} (id name : String)
      → truthy (st "beidar_pos_cart") ≡ some text
      → c.parse_cart text ≡ value items
      → truthy (st "beidar_pos_customer") ≡ some t
      → c.parse_customer t ≡ value (id, name)
      → id ≢ ""
      → name ≢ ""
      → (restore c st initial).0.selected_customer ≡ some (restored_customer id name)
  unfolding restore
  restore-customer st id name h p k q ni nn = ground (arith, eq_iff id "", eq_iff name "")

  -- If JSON reads it back, a cart that is not empty comes back from a restart, line for line.
  pub restart_keeps_cart :
      (r s : CartState) (st : Storage)
      → 0 < length r.cart
      → CartIsRead c r.cart
      → (mount c (save_effect c r (s, st)).1).0.cart ≡ r.cart
  restart_keeps_cart r s st l read =
      let saved = (save_effect c r (s, st)).1 in
      mount-cart saved
      ∙ restore-cart saved (rw (saved_cart r s st l) read.cart_text) read.cart_back l

  -- If JSON reads both back, the customer of such a cart comes back with the identifier and the name alone.
  pub restart_keeps_customer :
      (r s : CartState) (st : Storage) (who : Customer)
      → 0 < length r.cart
      → r.selected_customer ≡ some who
      → who.id ≢ ""
      → who.name ≢ ""
      → CartIsRead c r.cart
      → CustomerIsRead c who
      → (mount c (save_effect c r (s, st)).1).0.selected_customer
        ≡ some (restored_customer who.id who.name)
  restart_keeps_customer r s st who l e ni nn read known =
      let saved = (save_effect c r (s, st)).1 in
      mount-selected_customer saved
      ∙ restore-customer saved who.id who.name (rw (saved_cart r s st l) read.cart_text)
          read.cart_back (rw (saved_customer r s st l e) known.customer_text) known.customer_back ni
          nn

  -- A customer with an identifier and a name that was saved with a cart and then deselected comes back
  -- after a restart, while the cart still has lines and if JSON reads both back: the save effect writes
  -- the customer's key only where one is selected, and never removes it while the cart has lines.
  pub deselected_customer_returns :
      (r r' s s' : CartState) (st : Storage) (who : Customer)
      → 0 < length r.cart
      → r.selected_customer ≡ some who
      → who.id ≢ ""
      → who.name ≢ ""
      → 0 < length r'.cart
      → r'.selected_customer ≡ none
      → CartIsRead c r'.cart
      → CustomerIsRead c who
      → let saved = (save_effect c r (s, st)).1 in
        (mount c (save_effect c r' (s', saved)).1).0.selected_customer
        ≡ some (restored_customer who.id who.name)
  deselected_customer_returns r r' s s' st who l e ni nn l' n read known =
      let before = (save_effect c r (s, st)).1 in
      let saved = (save_effect c r' (s', before)).1 in
      let kept = saved_no_customer r' s' before l' n ∙ saved_customer r s st l e in
      mount-selected_customer saved
      ∙ restore-customer saved who.id who.name (rw (saved_cart r' s' before l') read.cart_text)
          read.cart_back (rw kept known.customer_text) known.customer_back ni nn
