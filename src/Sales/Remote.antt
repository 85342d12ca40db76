-- ===== src/Sales/Remote.antt =====
-- The codes that other devices send to SalesPage.tsx: the listener of "remote-scan-received" over `handleScan`.
use Prim.Native.String.{◌++◌}
use text.Mathlib.Text.{starts_with}
use beidar_pos.Prelude.{
  String, ◌≡◌, Bool, true, false, Option, none, some, List, ◌∷◌, arith, ◌===◌, if◌then◌else◌, find,
  or_default,
}
use beidar_pos.Store.{truthy}
use beidar_pos.Cart.{Product}
use beidar_pos.Sales.{Page, notify, success, error}
use beidar_pos.Sales.Scan.{ScanResult, Outcome, result, load_invoice, handle_scan}

-- What follows `handleScan`: its result, or none if it throws. A missing name is written as the text of
-- `undefined`.
unfoldable pub announce : Option ScanResult → Page → Page
announce none p =
    notify
      "\u{62e}\u{637}\u{623} \u{641}\u{64a} \u{645}\u{639}\u{627}\u{644}\u{62c}\u{629} \u{627}\u{644}\u{645}\u{633}\u{62d}"
      error p
announce (some r) p =
    if r.success
    then notify ("\u{62a}\u{645} \u{645}\u{633}\u{62d}: " ++ or_default r.name "undefined") success
        p
    else notify
        (or_default (truthy r.message)
          "\u{645}\u{633}\u{62d} \u{63a}\u{64a}\u{631} \u{645}\u{639}\u{631}\u{648}\u{641}")
        error p

-- The listener, with the invoice that is still to be loaded, if the code asks for one.
unfoldable pub remote_scan : List Product → Bool → Option String → Page → Page × Option String
unfolding announce
remote_scan products scanner_open sent p = elim (truthy sent) [
  | none ↦ (p, none)
  | some code ↦
      let scanned : Page × Outcome = handle_scan products scanner_open code p in
      elim (scanned.1) [
        | result r ↦ (announce (some r) scanned.0, none)
        | load_invoice id ↦ (scanned.0, some id)
      ]
]

-- A code that no product has, sent by another device, changes no cart but asks whether to add the product;
-- all the same a success is announced, for a product of no name.
pub unknown_code_is_announced :
    (products : List Product) (scanner_open : Bool) (code : String) (p : Page)
    → truthy (some code) ≡ some code
    → starts_with code "INV:" ≡ false
    → find (λ k. k.barcode === code) products ≡ none
    → let p' = (remote_scan products scanner_open (some code) p).0 in
      (p'.session ≡ p.session)
      × (p'.confirm_state ≡ (true, code))
      × (p'.notices
          ≡ ("\u{62a}\u{645} \u{645}\u{633}\u{62d}: " ++ "undefined", success) ∷ p.notices)
unfolding remote_scan handle_scan
unknown_code_is_announced products scanner_open code p h n f = ground arith
