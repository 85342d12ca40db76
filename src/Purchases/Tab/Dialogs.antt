-- ===== src/Purchases/Tab/Dialogs.antt =====
-- The dialogs of PurchaseOrdersTab.tsx that cancel and delete, the windows for goods and payments, and all its
-- buttons.
use beidar_pos.Prelude.{String, true, Option, none, some}
use Prim.Native.String.{◌++◌ as text_append}
use beidar_pos.Store.{truthy}
use beidar_pos.Confirm.{open_confirm, close_confirm, pressed}
use beidar_pos.Queries.{all_data}
use beidar_pos.Purchases.{PurchaseOrder, receive_all, unpaid}
use beidar_pos.Purchases.Tab.{
  Deed, Call, Reply, TabState, notify, cause, complain, begin_create, finish_create, begin_receive,
  finish_receive, begin_pay, finish_pay, cancelling, deleting, create, receive, pay, cancel, delete,
  done, failed, success, invalidated, orders_reloaded,
}

-- `handleCancelOrder` and `handleDeleteOrder` ask first.
unfoldable pub handle_cancel_order : PurchaseOrder → TabState → TabState
handle_cancel_order order s = elim (truthy order.id) [
  | none ↦ s
  | some id ↦ record s {
    confirm_state =
        open_confirm
          "\u{625}\u{644}\u{63a}\u{627}\u{621} \u{623}\u{645}\u{631} \u{627}\u{644}\u{634}\u{631}\u{627}\u{621}"
          (text_append
            "\u{647}\u{644} \u{623}\u{646}\u{62a} \u{645}\u{62a}\u{623}\u{643}\u{62f} \u{645}\u{646} \u{625}\u{644}\u{63a}\u{627}\u{621} \u{623}\u{645}\u{631} \u{627}\u{644}\u{634}\u{631}\u{627}\u{621} #"
            (text_append id "\u{61f}"))
          "warning" none (cancelling id) s.confirm_state;
  }
]

unfoldable pub handle_delete_order : PurchaseOrder → TabState → TabState
handle_delete_order order s = elim (truthy order.id) [
  | none ↦ s
  | some id ↦ record s {
    confirm_state =
        open_confirm
          "\u{62d}\u{630}\u{641} \u{623}\u{645}\u{631} \u{627}\u{644}\u{634}\u{631}\u{627}\u{621}"
          (text_append
            "\u{647}\u{644} \u{623}\u{646}\u{62a} \u{645}\u{62a}\u{623}\u{643}\u{62f} \u{645}\u{646} \u{62d}\u{630}\u{641} \u{623}\u{645}\u{631} \u{627}\u{644}\u{634}\u{631}\u{627}\u{621} #"
            (text_append id
              "\u{61f} \u{647}\u{630}\u{627} \u{627}\u{644}\u{625}\u{62c}\u{631}\u{627}\u{621} \u{644}\u{627} \u{64a}\u{645}\u{643}\u{646} \u{627}\u{644}\u{62a}\u{631}\u{627}\u{62c}\u{639} \u{639}\u{646}\u{647}."))
          "error" none (deleting id) s.confirm_state;
  }
]

abbrev pub call_of : Deed → Call
call_of (cancelling id) = cancel id
call_of (deleting id) = delete id

abbrev pub confirmed_of : Option Deed → TabState → Option Call × TabState
confirmed_of none s = (none, s)
confirmed_of (some deed) s = (some (call_of deed), s)

-- A press of the dialog's button.
unfoldable pub begin_confirmed : TabState → Option Call × TabState
begin_confirmed s = confirmed_of (pressed s.confirm_state) s

abbrev pub done_message : Deed → String
done_message (cancelling id) =
    "\u{62a}\u{645} \u{625}\u{644}\u{63a}\u{627}\u{621} \u{627}\u{644}\u{623}\u{645}\u{631}"
done_message (deleting id) =
    "\u{62a}\u{645} \u{62d}\u{630}\u{641} \u{627}\u{644}\u{623}\u{645}\u{631}"

abbrev pub failed_message : Deed → String
failed_message (cancelling id) =
    "\u{641}\u{634}\u{644} \u{627}\u{644}\u{625}\u{644}\u{63a}\u{627}\u{621}"
failed_message (deleting id) = "\u{641}\u{634}\u{644} \u{627}\u{644}\u{62d}\u{630}\u{641}"

abbrev close_dialog : TabState → TabState
close_dialog s = record s { confirm_state = close_confirm s.confirm_state }

unfoldable pub finish_confirmed : Deed → Reply → TabState → TabState
finish_confirmed deed done s =
    close_dialog
      (cause orders_reloaded (cause (invalidated all_data) (notify (done_message deed) success s)))
finish_confirmed deed (failed message) s = close_dialog (complain message (failed_message deed) s)

unfoldable pub open_receive_modal : PurchaseOrder → TabState → TabState
open_receive_modal order s = record s {
  selected_order = some order;
  receive_items = receive_all order;
  show_receive_modal = true;
}

unfoldable pub open_pay_modal : PurchaseOrder → TabState → TabState
open_pay_modal order s = record s {
  selected_order = some order;
  pay_amount = unpaid order;
  show_pay_modal = true;
}

-- The buttons that may call the backend, and what follows the answer of a call.
pub data Button : Type 0 where
  create_button receive_button pay_button confirm_button : Button

unfoldable pub begin : Button → TabState → Option Call × TabState
unfolding begin_create begin_receive begin_pay begin_confirmed
begin create_button s = begin_create s
begin receive_button s = begin_receive s
begin pay_button s = begin_pay s
begin confirm_button s = begin_confirmed s

unfoldable pub finish : Call → Reply → TabState → TabState
unfolding finish_create finish_receive finish_pay finish_confirmed
finish (create order) reply s = finish_create reply s
finish (receive id items) reply s = finish_receive reply s
finish (pay id amount method) reply s = finish_pay reply s
finish (cancel id) reply s = finish_confirmed (cancelling id) reply s
finish (delete id) reply s = finish_confirmed (deleting id) reply s
