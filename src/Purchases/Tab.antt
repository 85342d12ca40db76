-- ===== src/Purchases/Tab.antt =====
-- The handlers of PurchaseOrdersTab.tsx. One that awaits the backend is two functions: up to the call, which
-- is `none` where it returns without one, and from the answer on.
pub mod Dialogs
pub mod Calls
use beidar_pos.Prelude.{
  String, Bool, true, false, ◌||◌, Option, none, some, List, [], ◌∷◌, ◌===◌, if◌then◌else◌,
  or_default, keep_if, take, is_some,
}
use beidar_pos.Prelude.Int.{ℤ, pos, leb_ℤ}
use Prim.Native.String.{◌++◌ as text_append}
use beidar_pos.Store.{truthy}
use beidar_pos.Confirm.{ConfirmState, open_confirm, close_confirm, pressed}
use beidar_pos.Queries.{Invalidation, all_data, products, finance}
use beidar_pos.Purchases.{
  PurchaseOrder, ReceiveOrderItem, FormItem, CreateForm, FormAction, empty_form, order_of, step,
  receive_all, items_to_receive, unpaid,
}

-- What a confirmed dialog does, with the identifier of the order.
pub data Deed : Type 0 where
  cancelling deleting : String → Deed

-- The calls of `api.purchaseOrders`.
pub data Call : Type 0 where
  create : PurchaseOrder → Call
  receive : String → List ReceiveOrderItem → Call
  pay : String → ℤ → String → Call
  cancel delete : String → Call

-- The answer of a call; the text is the message of an `Error`.
pub data Reply : Type 0 where
  done : Reply
  failed : Option String → Reply

pub data Kind : Type 0 where
  success error : Kind

-- What a handler starts elsewhere: the caches it drops, the orders it reloads, the suppliers it refreshes.
pub data Effect : Type 0 where
  invalidated : Invalidation → Effect
  orders_reloaded suppliers_refreshed : Effect

-- The state that the handlers change; notices and effects latest first.
pub record TabState : Type 0 where
  pub show_create_modal : Bool
  pub show_receive_modal : Bool
  pub show_pay_modal : Bool
  pub selected_order : Option PurchaseOrder
  pub create_form : CreateForm
  pub product_search : String
  pub receive_items : List ReceiveOrderItem
  pub pay_amount : ℤ
  pub pay_method : String
  pub confirm_state : ConfirmState Deed
  pub notices : List (String × Kind)
  pub effects : List Effect

abbrev pub notify : String → Kind → TabState → TabState
notify message kind s = record s { notices = (message, kind) ∷ s.notices }

abbrev pub cause : Effect → TabState → TabState
cause e s = record s { effects = e ∷ s.effects }

-- The message of an `Error`, or what the handler says of anything else.
abbrev pub complain : Option String → String → TabState → TabState
complain message fallback s = notify (or_default message fallback) error s

abbrev pub create_of : CreateForm → List FormItem → TabState → Option Call × TabState
create_of form [] s = (
  none,
  notify
      "\u{64a}\u{631}\u{62c}\u{649} \u{625}\u{636}\u{627}\u{641}\u{629} \u{645}\u{646}\u{62a}\u{62c} \u{648}\u{627}\u{62d}\u{62f} \u{639}\u{644}\u{649} \u{627}\u{644}\u{623}\u{642}\u{644}"
      error s,
)
create_of form (i ∷ items) s = (some (create (order_of form)), s)

unfoldable pub begin_create : TabState → Option Call × TabState
begin_create s =
    if s.create_form.supplier_id === ""
    then (
      none,
      notify
          "\u{64a}\u{631}\u{62c}\u{649} \u{627}\u{62e}\u{62a}\u{64a}\u{627}\u{631} \u{627}\u{644}\u{645}\u{648}\u{631}\u{62f}"
          error s,
    )
    else create_of s.create_form s.create_form.items s

unfoldable pub finish_create : Reply → TabState → TabState
finish_create done s = cause orders_reloaded (
    cause (invalidated all_data) (
      notify
        "\u{62a}\u{645} \u{625}\u{646}\u{634}\u{627}\u{621} \u{623}\u{645}\u{631} \u{627}\u{644}\u{634}\u{631}\u{627}\u{621} \u{628}\u{646}\u{62c}\u{627}\u{62d}"
        success (record s { show_create_modal = false; create_form = empty_form })))
finish_create (failed message) s =
    complain message
      "\u{641}\u{634}\u{644} \u{625}\u{646}\u{634}\u{627}\u{621} \u{623}\u{645}\u{631} \u{627}\u{644}\u{634}\u{631}\u{627}\u{621}"
      s

-- `selectedOrder?.id`, if it is not empty.
abbrev pub selected_id : TabState → Option String
selected_id s = elim s.selected_order [ none ↦ none | some order ↦ truthy order.id ]

abbrev pub receive_of : Option String → List ReceiveOrderItem → TabState → Option Call × TabState
receive_of none items s = (none, s)
receive_of (some id) [] s = (
  none,
  notify
      "\u{64a}\u{631}\u{62c}\u{649} \u{62a}\u{62d}\u{62f}\u{64a}\u{62f} \u{627}\u{644}\u{643}\u{645}\u{64a}\u{627}\u{62a} \u{627}\u{644}\u{645}\u{633}\u{62a}\u{644}\u{645}\u{629}"
      error s,
)
receive_of (some id) (r ∷ rs) s = (some (receive id (r ∷ rs)), s)

unfoldable pub begin_receive : TabState → Option Call × TabState
begin_receive s = receive_of (selected_id s) (items_to_receive s.receive_items) s

unfoldable pub finish_receive : Reply → TabState → TabState
finish_receive done s = cause suppliers_refreshed (
    cause orders_reloaded (
      cause (invalidated all_data) (
        cause (invalidated products) (
          notify
            "\u{62a}\u{645} \u{62a}\u{633}\u{62c}\u{64a}\u{644} \u{627}\u{644}\u{627}\u{633}\u{62a}\u{644}\u{627}\u{645} \u{628}\u{646}\u{62c}\u{627}\u{62d}"
            success (record s { show_receive_modal = false; selected_order = none })))))
finish_receive (failed message) s =
    complain message
      "\u{641}\u{634}\u{644} \u{62a}\u{633}\u{62c}\u{64a}\u{644} \u{627}\u{644}\u{627}\u{633}\u{62a}\u{644}\u{627}\u{645}"
      s

abbrev pub pay_of : Option String → TabState → Option Call × TabState
pay_of none s = (
  none,
  notify
      "\u{64a}\u{631}\u{62c}\u{649} \u{625}\u{62f}\u{62e}\u{627}\u{644} \u{645}\u{628}\u{644}\u{63a} \u{635}\u{62d}\u{64a}\u{62d}"
      error s,
)
pay_of (some id) s =
    if leb_ℤ s.pay_amount (pos 0)
    then (
      none,
      notify
          "\u{64a}\u{631}\u{62c}\u{649} \u{625}\u{62f}\u{62e}\u{627}\u{644} \u{645}\u{628}\u{644}\u{63a} \u{635}\u{62d}\u{64a}\u{62d}"
          error s,
    )
    else (some (pay id s.pay_amount s.pay_method), s)

unfoldable pub begin_pay : TabState → Option Call × TabState
begin_pay s = pay_of (selected_id s) s

unfoldable pub finish_pay : Reply → TabState → TabState
finish_pay done s = cause suppliers_refreshed (
    cause orders_reloaded (
      cause (invalidated all_data) (
        cause (invalidated finance) (
          notify
            "\u{62a}\u{645} \u{62a}\u{633}\u{62c}\u{64a}\u{644} \u{627}\u{644}\u{62f}\u{641}\u{639} \u{628}\u{646}\u{62c}\u{627}\u{62d}"
            success
            (record s { show_pay_modal = false; selected_order = none; pay_amount = pos 0 })))))
finish_pay (failed message) s =
    complain message
      "\u{641}\u{634}\u{644} \u{62a}\u{633}\u{62c}\u{64a}\u{644} \u{627}\u{644}\u{62f}\u{641}\u{639}"
      s
