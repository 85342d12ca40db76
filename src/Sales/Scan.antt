-- ===== src/Sales/Scan.antt =====
-- A scanned code in SalesPage.tsx: `handleScan`, and the quick sale of a product that is not in the list.
use Prim.Native.String.{len, slice, ◌++◌}
use text.Mathlib.Text.{starts_with, find?}
use beidar_pos.Prelude.{
  String, ◌≡◌, Bool, true, false, Option, none, some, List, arith, ◌===◌, if◌then◌else◌, find,
  or_default,
}
use beidar_pos.Prelude.Int.{pos, ◌+ℤ◌, eqb_ℤ}
use beidar_pos.Store.{truthy}
use beidar_pos.Cart.{Product, Action, add, step}
use beidar_pos.Cart.Items.{IsValid, step-IsValid}
use beidar_pos.Cart.Refine.{qty_of, intended, qty_of-step}
use beidar_pos.Sales.{Page, Sale, notify, success, error}
use beidar_pos.Sales.Wholesale.{add_at_price, price_to_use}

-- What a code asks for: an invoice by its number, or a product by its barcode.
pub data Scan : Type 0 where
  invoice : String → Scan
  barcode : String → Scan

-- `code.split('|')[0]`
before_bar : String → String
before_bar code = elim (find? code "|") [ none ↦ code | some i ↦ slice code 0 i ]

-- `code.startsWith('INV:')`, and the number without its prefix.
unfoldable pub read_code : String → Scan
unfolding before_bar
read_code code =
    if starts_with code "INV:"
    then invoice (slice (before_bar code) 4 (len (before_bar code)))
    else barcode code

-- `ScanResult`, with the name of a product or an invoice, or a message.
pub record ScanResult : Type 0 where
  pub success : Bool
  pub name : Option String
  pub message : Option String

-- What a scan gives at once: a result, or a call of `api.sales.get`.
pub data Outcome : Type 0 where
  result : ScanResult → Outcome
  load_invoice : String → Outcome

scan_barcode : List Product → Bool → String → Page → Page × Outcome
unfolding add_at_price
scan_barcode products scanner_open code p = elim (find (λ q. q.barcode === code) products) [
  | none ↦ (
    record p { confirm_state = (true, code) },
    result (record {
      success = true;
      name = none;
      message =
          some
            "\u{627}\u{644}\u{645}\u{646}\u{62a}\u{62c} \u{63a}\u{64a}\u{631} \u{645}\u{648}\u{62c}\u{648}\u{62f} - \u{623}\u{643}\u{645}\u{644} \u{627}\u{644}\u{625}\u{636}\u{627}\u{641}\u{629} \u{639}\u{644}\u{649} \u{627}\u{644}\u{643}\u{645}\u{628}\u{64a}\u{648}\u{62a}\u{631}";
    }),
  )
  | some found ↦ (
    (add_at_price scanner_open found p).0,
    result (record { success = true; name = some found.name; message = none }),
  )
]

-- `handleScan` up to its answer or its call of the backend.
unfoldable pub handle_scan : List Product → Bool → String → Page → Page × Outcome
unfolding read_code scan_barcode
handle_scan products scanner_open code p = elim (read_code code) [
  | invoice id ↦ (p, load_invoice id)
  | barcode code ↦ scan_barcode products scanner_open code p
]

-- The answer of `api.sales.get`: rejected, no such sale, or the sale.
pub data InvoiceReply : Type 0 where
  refused absent : InvoiceReply
  found : Sale → InvoiceReply

unfoldable pub invoice_loaded : String → InvoiceReply → Page → Page × ScanResult
invoice_loaded id refused p = (
  notify
      "\u{62e}\u{637}\u{623} \u{641}\u{64a} \u{62a}\u{62d}\u{645}\u{64a}\u{644} \u{627}\u{644}\u{641}\u{627}\u{62a}\u{648}\u{631}\u{629}"
      error p,
  record {
    success = false;
    name = none;
    message =
        some
          "\u{62e}\u{637}\u{623} \u{641}\u{64a} \u{627}\u{644}\u{62a}\u{62d}\u{645}\u{64a}\u{644}";
  },
)
invoice_loaded id absent p = (
  notify
      "\u{627}\u{644}\u{641}\u{627}\u{62a}\u{648}\u{631}\u{629} \u{63a}\u{64a}\u{631} \u{645}\u{648}\u{62c}\u{648}\u{62f}\u{629}"
      error p,
  record {
    success = false;
    name = none;
    message =
        some
          "\u{641}\u{627}\u{62a}\u{648}\u{631}\u{629} \u{63a}\u{64a}\u{631} \u{645}\u{648}\u{62c}\u{648}\u{62f}\u{629}";
  },
)
invoice_loaded id (found sale) p = (
  record p { scanned_invoice = some sale },
  record {
    success = true;
    name = some ("\u{641}\u{627}\u{62a}\u{648}\u{631}\u{629} #" ++ id);
    message = none;
  },
)

-- `handleConfirmAddProduct`: the quick form opens for the code.
unfoldable pub confirm_add_product : Page → Page
confirm_add_product p = record p {
  new_product_barcode = p.confirm_state.1;
  show_quick_add_modal = true;
  confirm_state = (false, "");
}

-- The product that `handleQuickAdd` saves, if the form has a name and a price; `now_s` is the time in
-- seconds as a text.
unfoldable pub quick_product : String → Page → Option Product
quick_product now_s p =
    if p.quick_form.0 === ""
    then none
    else (if eqb_ℤ p.quick_form.1 (pos 0)
        then none
        else some (record {
          id = now_s;
          name = p.quick_form.0;
          price = p.quick_form.1;
          cost = pos 0;
          stock = pos 1000;
          min_stock = pos 5000;
          wholesale_price = pos 0;
          category = "\u{639}\u{627}\u{645}";
          image = "";
          barcode = or_default (truthy (some p.new_product_barcode)) now_s;
          supplier = none;
          description = none;
        }))

-- The rest of `handleQuickAdd`: whether the product was saved.
unfoldable pub finish_quick_add : Bool → Product → Bool → Page → Page
unfolding add_at_price
finish_quick_add scanner_open product true p =
    notify
      "\u{62a}\u{645} \u{625}\u{636}\u{627}\u{641}\u{629} \u{627}\u{644}\u{645}\u{646}\u{62a}\u{62c} \u{648}\u{628}\u{64a}\u{639}\u{647}"
      success
      (record ((add_at_price scanner_open product p).0) {
        show_quick_add_modal = false;
        quick_form = ("", pos 0);
      })
finish_quick_add scanner_open product false p =
    notify
      "\u{641}\u{634}\u{644} \u{625}\u{636}\u{627}\u{641}\u{629} \u{627}\u{644}\u{645}\u{646}\u{62a}\u{62c}"
      error p

-- At a valid cart, a code that is no invoice's and that a product of the list has as its barcode sells one
-- more piece of the first such product and leaves the other quantities; the cart stays valid, and the page
-- does not ask for a new product.
pub scan_sells_one :
    (products : List Product) (scanner_open : Bool) (code j : String) (p : Page) {q : Product}
    → starts_with code "INV:" ≡ false
    → find (λ k. k.barcode === code) products ≡ some q
    → IsValid p.session.cart
    → let (p', outcome) = handle_scan products scanner_open code p in
      (qty_of j p'.session.cart
        ≡ (if q.id === j then qty_of j p.session.cart +ℤ pos 1000 else qty_of j p.session.cart))
      × IsValid p'.session.cart
      × (p'.confirm_state ≡ p.confirm_state)
unfolding handle_scan intended step
scan_sells_one products scanner_open code j p {q} n f v =
    let sold : Action = add (record q { price = price_to_use p.is_wholesale q }) in
    ground (arith, qty_of-step sold p.session.cart j v, step-IsValid sold p.session.cart v)
