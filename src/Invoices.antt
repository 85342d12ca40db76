-- ===== src/Invoices.antt =====
-- The invoices page: frontend/src/features/invoices/invoices.tsx. A handler that awaits the backend is two
-- functions, up to the call and from its answer on. The scale of the preview counts tenths of a percent.
pub mod Pin
mod Tests
use Prim.Native.String.{◌++◌}
use beidar_pos.Prelude.{
  ℕ, ◌+◌, ◌-◌, String, Bool, true, false, Option, none, some, List, [], ◌∷◌, if◌then◌else◌, is_some,
  ltb,
}
use beidar_pos.Store.{truthy}
use beidar_pos.Queries.{Invalidation, all_data, products, customers, sales}
use beidar_pos.Sales.{Sale}
use beidar_pos.Sales.Scan.{Scan, ScanResult, invoice, barcode, read_code}

pub data Kind : Type 0 where
  success error : Kind

-- The state that the handlers change; notices, beeps and invalidated caches latest first.
pub record InvoicesState : Type 0 where
  pub selected_invoice : Option Sale
  pub delete_confirmation : Option Sale
  pub return_confirmation : Option Sale
  pub show_pin_modal : Bool
  pub is_printing : Bool
  pub is_scanner_open : Bool
  pub preview_scale : ℕ
  pub notices : List (String × Kind)
  pub beeps : List Kind
  pub invalidated : List Invalidation

abbrev pub initial : InvoicesState
initial = record {
  selected_invoice = none;
  delete_confirmation = none;
  return_confirmation = none;
  show_pin_modal = false;
  is_printing = false;
  is_scanner_open = false;
  preview_scale = 450;
  notices = [];
  beeps = [];
  invalidated = [];
}

abbrev pub notify : String → Kind → InvoicesState → InvoicesState
notify message kind s = record s { notices = (message, kind) ∷ s.notices }

abbrev pub beep : Kind → InvoicesState → InvoicesState
beep kind s = record s { beeps = kind ∷ s.beeps }

-- `handleInitDelete`, with the administrator's PIN of the preferences.
unfoldable pub handle_init_delete : Option String → Sale → InvoicesState → InvoicesState
handle_init_delete admin_pin sale s =
    if is_some (truthy admin_pin)
    then record s { delete_confirmation = some sale; show_pin_modal = true }
    else record s { delete_confirmation = some sale }

-- The PIN dialog is closed.
unfoldable pub close_pin : InvoicesState → InvoicesState
close_pin s = record s { show_pin_modal = false; delete_confirmation = none }

abbrev pub deletion_of : Bool → Option Sale → Option String
deletion_of true (some sale) = some sale.id
deletion_of _ _ = none

-- `performDelete`, which only the PIN dialog calls, and only while it is shown.
unfoldable pub begin_delete : InvoicesState → Option String
begin_delete s = deletion_of s.show_pin_modal s.delete_confirmation

-- The answer of a call: whether it throws.
unfoldable pub finish_delete : Bool → InvoicesState → InvoicesState
finish_delete true s =
    notify "\u{62e}\u{637}\u{623} \u{641}\u{64a} \u{627}\u{644}\u{62d}\u{630}\u{641}" error s
finish_delete false s =
    let t : InvoicesState =
      notify
        "\u{62a}\u{645} \u{62d}\u{630}\u{641} \u{627}\u{644}\u{641}\u{627}\u{62a}\u{648}\u{631}\u{629} \u{628}\u{646}\u{62c}\u{627}\u{62d}"
        success s in
    record t {
      delete_confirmation = none;
      selected_invoice = none;
      show_pin_modal = false;
      invalidated = all_data ∷ sales ∷ t.invalidated;
    }

unfoldable pub handle_return_init : Sale → InvoicesState → InvoicesState
handle_return_init sale s = record s { return_confirmation = some sale }

-- `performReturn`
unfoldable pub begin_return : InvoicesState → Option String
begin_return s = elim s.return_confirmation [ none ↦ none | some sale ↦ some sale.id ]

unfoldable pub finish_return : Bool → InvoicesState → InvoicesState
finish_return true s =
    notify
      "\u{62e}\u{637}\u{623} \u{641}\u{64a} \u{639}\u{645}\u{644}\u{64a}\u{629} \u{627}\u{644}\u{625}\u{631}\u{62c}\u{627}\u{639}"
      error s
finish_return false s =
    let t : InvoicesState =
      notify
        "\u{62a}\u{645} \u{625}\u{631}\u{62c}\u{627}\u{639} \u{627}\u{644}\u{641}\u{627}\u{62a}\u{648}\u{631}\u{629} \u{648}\u{62a}\u{62d}\u{62f}\u{64a}\u{62b} \u{627}\u{644}\u{645}\u{62e}\u{632}\u{648}\u{646}"
        success s in
    record t {
      selected_invoice = none;
      is_printing = false;
      return_confirmation = none;
      invalidated = all_data ∷ customers ∷ products ∷ sales ∷ t.invalidated;
    }

-- What `api.sales.get` gives: an exception, or an invoice or none.
pub data Loaded : Type 0 where
  broken : Loaded
  loaded : Option Sale → Loaded

abbrev pub refused : String → ScanResult
refused message = record { success = false; name = none; message = some message }

-- `handleScan` from the answer of the backend for an invoice on.
abbrev pub invoice_loaded : String → Loaded → InvoicesState → InvoicesState × ScanResult
invoice_loaded id broken s = (
  notify
      "\u{62e}\u{637}\u{623} \u{641}\u{64a} \u{62a}\u{62d}\u{645}\u{64a}\u{644} \u{627}\u{644}\u{641}\u{627}\u{62a}\u{648}\u{631}\u{629}"
      error (beep error s),
  refused "\u{62e}\u{637}\u{623} \u{641}\u{64a} \u{627}\u{644}\u{62a}\u{62d}\u{645}\u{64a}\u{644}",
)
invoice_loaded id (loaded none) s = (
  notify
      "\u{627}\u{644}\u{641}\u{627}\u{62a}\u{648}\u{631}\u{629} \u{63a}\u{64a}\u{631} \u{645}\u{648}\u{62c}\u{648}\u{62f}\u{629}"
      error (beep error s),
  refused
      "\u{641}\u{627}\u{62a}\u{648}\u{631}\u{629} \u{63a}\u{64a}\u{631} \u{645}\u{648}\u{62c}\u{648}\u{62f}\u{629}",
)
invoice_loaded id (loaded (some sale)) s = (
  beep success (record s { selected_invoice = some sale; is_scanner_open = false }),
  record {
    success = true;
    name = some ("\u{641}\u{627}\u{62a}\u{648}\u{631}\u{629} #" ++ id);
    message = none;
  },
)

abbrev pub scan_read : (String → Loaded) → Scan → InvoicesState → InvoicesState × ScanResult
scan_read load (barcode other) s = (
  beep error s,
  refused
      "\u{647}\u{630}\u{627} \u{644}\u{64a}\u{633} QR \u{641}\u{627}\u{62a}\u{648}\u{631}\u{629}",
)
scan_read load (invoice id) s = invoice_loaded id (load id) s

-- `handleScan`; `load` stands for the answer of the backend for the number of an invoice.
unfoldable pub handle_scan : (String → Loaded) → String → InvoicesState → InvoicesState × ScanResult
handle_scan load code s = scan_read load (read_code code) s

-- The buttons of the preview.
unfoldable pub zoom_in : InvoicesState → InvoicesState
zoom_in s = record s {
  preview_scale = if ltb (s.preview_scale + 100) 1500 then s.preview_scale + 100 else 1500;
}

unfoldable pub zoom_out : InvoicesState → InvoicesState
zoom_out s = record s {
  preview_scale = if ltb 300 (s.preview_scale - 100) then s.preview_scale - 100 else 300;
}

-- What may happen on the page.
pub data Event : Type 0 where
  delete_asked : Sale → Event
  pin_closed pin_confirmed : Event
  delete_answered return_answered : Bool → Event
  return_asked : Sale → Event
  scanned : (String → Loaded) → String → Event
  zoomed_in zoomed_out : Event

-- A step, with the invoice whose deletion is called for.
unfoldable pub step : Option String → Event → InvoicesState → InvoicesState × Option String
step admin_pin (delete_asked sale) s = (handle_init_delete admin_pin sale s, none)
step admin_pin pin_closed s = (close_pin s, none)
step admin_pin pin_confirmed s = (s, begin_delete s)
step admin_pin (delete_answered throws) s = (finish_delete throws s, none)
step admin_pin (return_answered throws) s = (finish_return throws s, none)
step admin_pin (return_asked sale) s = (handle_return_init sale s, none)
step admin_pin (scanned load code) s = ((handle_scan load code s).0, none)
step admin_pin zoomed_in s = (zoom_in s, none)
step admin_pin zoomed_out s = (zoom_out s, none)

abbrev pub with_deletion : Option String → List String → List String
with_deletion none rest = rest
with_deletion (some id) rest = id ∷ rest

-- The deletions that are called for, in their order.
unfoldable pub deletions : Option String → List Event → InvoicesState → List String
deletions admin_pin [] s = []
deletions admin_pin (e ∷ events) s =
    with_deletion (step admin_pin e s).1 (deletions admin_pin events (step admin_pin e s).0)
