-- ===== src/Invoices/Tests.antt =====
-- The properties of the invoices page at some events.
use beidar_pos.Prelude.{String, ◌≡◌, refl, ◌⊎◌, false, none, some, List, [], ◌∷◌}
use beidar_pos.Prelude.Int.{pos}
use beidar_pos.Sales.{Sale}
use beidar_pos.Invoices.{
  initial, Event, delete_asked, pin_closed, pin_confirmed, delete_answered, zoomed_in, step,
  deletions, handle_init_delete, begin_delete, close_pin, finish_delete, zoom_in, zoom_out,
}
use beidar_pos.Invoices.Pin.{no_pin_no_delete}

abbrev sale : String → Sale
sale id = record {
  id = id;
  customer = "";
  customer_id = none;
  staff_id = "";
  staff_name = "";
  date = "";
  timestamp = 0;
  subtotal = pos 0;
  discount = pos 0;
  vat = pos 0;
  total = pos 0;
  payment_method = "cash";
  split_details = none;
  installment_plan = none;
  status = "completed";
  items_count = pos 0;
  items = [];
}

abbrev events : List Event
events =
    delete_asked (sale "1")
    ∷ pin_closed
    ∷ pin_confirmed
    ∷ zoomed_in
    ∷ delete_asked (sale "2")
    ∷ pin_confirmed
    ∷ delete_answered false
    ∷ pin_confirmed
    ∷ []

second_is_deleted : deletions (some "1234") events initial ≡ "2" ∷ []
unfolding deletions step handle_init_delete begin_delete close_pin finish_delete zoom_in
second_is_deleted = refl

zooms_between : (zoom_out (zoom_out initial)).preview_scale ≡ 300
unfolding zoom_out
zooms_between = refl

no_pin_no_delete_example : deletions none events initial ≡ []
no_pin_no_delete_example = no_pin_no_delete none events refl

abbrev IsKnown : String → Type 0
IsKnown id = (id ≡ "1") ⊎ (id ≡ "2")
