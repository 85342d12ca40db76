-- ===== src/Sales/Parking.antt =====
-- Parked sales: `handleParkSale` and `handleRetrieveSale` of SalesPage.tsx over the mutation of
-- frontend/src/hooks/useParkedSales.ts. The backend keeps the parked sales.
use beidar_pos.Prelude.{
  ℕ, ◌<◌, String, ◌≡◌, Bool, true, false, Option, none, some, List, [], arith, ◌===◌, if◌then◌else◌,
  find, length, ltb, ◌≢◌, ◌⊎◌, inl, inr, refl, eq_iff, Bool-cases,
}
use beidar_pos.Prelude.Int.{ℤ, pos}
use beidar_pos.Store.{throws, other, value}
use beidar_pos.Cart.{CartItem, Customer}
use beidar_pos.Cart.Totals.{thousandths, total}
use beidar_pos.Cart.Session.{Codec, CartIsRead}
use beidar_pos.Sales.{Page, Context, notify, success, error, info}

-- The arguments of `api.sales.park`.
pub record ParkRequest : Type 0 where
  pub items_json : String
  pub customer_name : String
  pub customer_id : String
  pub note : String
  pub total : ℤ
  pub items_count : ℕ

abbrev name_or_empty : Option Customer → String
name_or_empty none = ""
name_or_empty (some c) = c.name

abbrev id_or_empty : Option Customer → String
id_or_empty none = ""
id_or_empty (some c) = c.id

-- The mutation function of `parkSale`; the page gives no note.
unfoldable pub park_request : Codec → List CartItem → Option Customer → ℤ → ParkRequest
park_request c cart customer total = record {
  items_json = c.stringify_cart cart;
  customer_name = name_or_empty customer;
  customer_id = id_or_empty customer;
  note = "";
  total = total;
  items_count = length cart;
}

-- `handleParkSale` up to the call.
unfoldable pub begin_park : Codec → Context → Page → Page × Option ParkRequest
unfolding park_request
begin_park c x p =
    if ltb 0 (length p.session.cart)
    then (
      p,
      some (
          park_request c p.session.cart p.session.selected_customer
            (thousandths (total p.session.cart p.session.discount x.prefs.tax_rate))),
    )
    else (
      notify "\u{627}\u{644}\u{633}\u{644}\u{629} \u{641}\u{627}\u{631}\u{63a}\u{629}" info p,
      none,
    )

-- The rest of it: whether the call was resolved.
unfoldable pub finish_park : Bool → Page → Page
finish_park true p =
    let told =
      notify
        "\u{62a}\u{645} \u{62a}\u{639}\u{644}\u{64a}\u{642} \u{627}\u{644}\u{641}\u{627}\u{62a}\u{648}\u{631}\u{629}"
        success p in
    record told {
      session = record (p.session) { cart = []; selected_customer = none; discount = pos 0 };
    }
finish_park false p =
    notify
      "\u{641}\u{634}\u{644} \u{62a}\u{639}\u{644}\u{64a}\u{642} \u{627}\u{644}\u{641}\u{627}\u{62a}\u{648}\u{631}\u{629}"
      error p

-- The fields of a parked sale that the page reads.
pub record ParkedSale : Type 0 where
  pub items_json : String
  pub customer_id : String

abbrev retrieved_customer : List Customer → String → Option Customer → Option Customer
retrieved_customer customers id old =
    if id === ""
    then old
    else (elim (find (λ c. c.id === id) customers) [ none ↦ old | some c ↦ some c ])

-- `handleRetrieveSale` from the answer on: `none` is a rejection. The items are those that a call of `park`
-- wrote: a text that is no JSON is refused, and one of another shape does not occur.
unfoldable pub finish_retrieve : Codec → List Customer → Option ParkedSale → Page → Page
finish_retrieve c customers none p =
    notify
      "\u{641}\u{634}\u{644} \u{627}\u{633}\u{62a}\u{631}\u{62c}\u{627}\u{639} \u{627}\u{644}\u{641}\u{627}\u{62a}\u{648}\u{631}\u{629}"
      error p
finish_retrieve c customers (some parked) p = elim (c.parse_cart parked.items_json) [
  | throws ↦
      notify
        "\u{641}\u{634}\u{644} \u{627}\u{633}\u{62a}\u{631}\u{62c}\u{627}\u{639} \u{627}\u{644}\u{641}\u{627}\u{62a}\u{648}\u{631}\u{629}"
        error p
  | other ↦ p
  | value items ↦
      notify
        "\u{62a}\u{645} \u{627}\u{633}\u{62a}\u{631}\u{62c}\u{627}\u{639} \u{627}\u{644}\u{641}\u{627}\u{62a}\u{648}\u{631}\u{629}"
        success
        (record p {
          session = record (p.session) {
            cart = items;
            selected_customer =
                retrieved_customer customers parked.customer_id p.session.selected_customer;
          };
          show_parked_modal = false;
        })
]

-- What the backend keeps of a request.
abbrev pub kept : ParkRequest → ParkedSale
kept r = record { items_json = r.items_json; customer_id = r.customer_id }

-- Whose sale it is when it is retrieved, `now`, where `old` was selected before: the first of the customers with
-- the identifier that was parked; or still `old`, where the sale had no customer, its identifier is empty, or no
-- customer has it.
abbrev pub ComesBack : List Customer → Option Customer → Option Customer → Option Customer → Type 0
ComesBack customers none old now = now ≡ old
ComesBack customers (some who) old now =
    ((who.id ≢ "")
      × ((k : Customer) × (find (λ c. c.id === who.id) customers ≡ some k) × (now ≡ some k)))
    ⊎ (((who.id ≡ "") ⊎ (find (λ c. c.id === who.id) customers ≡ none)) × (now ≡ old))

found-ComesBack :
    (customers : List Customer) (who : Customer) (old found : Option Customer)
    → (who.id === "") ≡ false
    → find (λ c. c.id === who.id) customers ≡ found
    → ComesBack customers (some who) old (retrieved_customer customers who.id old)
found-ComesBack customers who old none full e = inr (inr e, rw (full, e) refl)
found-ComesBack customers who old (some k) full e =
    inl (λ empty. absurd (ground (arith, full, empty, eq_iff who.id "")), (k, e, rw (full, e) refl))

retrieved-ComesBack :
    (customers : List Customer) (o old : Option Customer)
    → ComesBack customers o old (retrieved_customer customers (id_or_empty o) old)
retrieved-ComesBack customers none old = refl
retrieved-ComesBack customers (some who) old = elim (Bool-cases (who.id === "")) [
  | inl empty ↦ inr (inl (ground (arith, empty, eq_iff who.id "")), rw empty refl)
  | inr full ↦ found-ComesBack customers who old (find (λ c. c.id === who.id) customers) full refl
]

module _ (c : Codec) (x : Context) where
  -- What a park of the page sends.
  abbrev pub sent : Page → ParkRequest
  sent p =
      park_request c p.session.cart p.session.selected_customer
        (thousandths (total p.session.cart p.session.discount x.prefs.tax_rate))

  -- If JSON reads its cart back, parking any sale with a line and retrieving it, with any page in between, gives its
  -- cart back line for line. Its customer comes back if its identifier is not empty and the list of customers has one
  -- with it; otherwise, and where the sale had none, the customer stays who was selected before the retrieval.
  pub park_then_retrieve :
      (customers : List Customer) (p q : Page)
      → 0 < length p.session.cart
      → CartIsRead c p.session.cart
      → let back = (finish_retrieve c customers (some (kept (sent p))) q).session in
        ((begin_park c x p).1 ≡ some (sent p))
        × (back.cart ≡ p.session.cart)
        × ComesBack customers p.session.selected_customer q.session.selected_customer
            back.selected_customer
  unfolding begin_park finish_retrieve
  park_then_retrieve customers p q l read = (
    ground (arith, l),
    rw (read.cart_back, finish_retrieve) refl,
    rw (read.cart_back, finish_retrieve)
        (retrieved-ComesBack customers p.session.selected_customer q.session.selected_customer),
  )
