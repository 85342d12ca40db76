-- ===== src/Queries.antt =====
-- The cache keys of the queries and what each mutation invalidates: frontend/src/core/queryClient.ts. A query
-- is invalidated by a filter that its key begins with.
mod Tests
use beidar_pos.Prelude.{
  ℕ, String, ◌≡◌, refl, Bool, true, false, ◌&&◌, ◌||◌, Option, none, some, List, [], ◌∷◌, arith,
  eq_iff, ◌===◌, ◌==◌, if◌then◌else◌, any,
}

-- A part of a key; the filters of the product list are compared as one value.
pub data Part : Type 0 where
  word : String → Part
  number : ℕ → Part
  filters : Option String → Option String → Option String → Part
  missing : Part

abbrev pub Key : Type 0
Key = List Part

abbrev same_option : Option String → Option String → Bool
same_option none none = true
same_option none (some b) = false
same_option (some a) none = false
same_option (some a) (some b) = a === b

abbrev same_part : Part → Part → Bool
same_part (word a) (word b) = a === b
same_part (number a) (number b) = a == b
same_part (filters a b c) (filters a' b' c') =
    same_option a a' && (same_option b b' && same_option c c')
same_part missing missing = true
same_part _ _ = false

-- The filter is the beginning of the key.
unfoldable pub begins_with : Key → Key → Bool
begins_with [] key = true
begins_with (p ∷ ps) [] = false
begins_with (p ∷ ps) (q ∷ qs) = same_part p q && begins_with ps qs

abbrev optional : Option String → Part
optional none = missing
optional (some t) = word t

-- The keys of `queryKeys`.
pub data Query : Type 0 where
  product_list : Option String → Option String → Option String → Query
  inventory_products : ℕ → ℕ → String → String → String → String → Query
  inventory_movements inventory_metadata : Query
  customer_list : Query
  customers_paged : ℕ → ℕ → String → Query
  supplier_list : Query
  suppliers_paged : ℕ → ℕ → String → Query
  sale_list : ℕ → ℕ → String → String → String → Query
  installments : String → Query
  parked parked_count : Query
  categories : Query
  dashboard_stats : String → Query
  finance_data : Query
  purchase_orders : Option String → Query
  shift_history : ℕ → Query
  shift_movements : Option String → Query
  staff staff_reports discounts : Query

unfoldable pub key_of : Query → Key
key_of (product_list search category status) =
    word "products" ∷ word "list" ∷ filters search category status ∷ []
key_of (inventory_products page size search category supplier kind) =
    word "inventory"
    ∷ word "products"
    ∷ number page
    ∷ number size
    ∷ word search
    ∷ word category
    ∷ word supplier
    ∷ word kind
    ∷ []
key_of inventory_movements = word "inventory" ∷ word "movements" ∷ []
key_of inventory_metadata = word "inventory" ∷ word "metadata" ∷ []
key_of customer_list = word "customers" ∷ word "list" ∷ []
key_of (customers_paged page size search) =
    word "customers" ∷ word "paged" ∷ number page ∷ number size ∷ word search ∷ []
key_of supplier_list = word "suppliers" ∷ word "list" ∷ []
key_of (suppliers_paged page size search) =
    word "suppliers" ∷ word "paged" ∷ number page ∷ number size ∷ word search ∷ []
key_of (sale_list page size search status date) =
    word "sales"
    ∷ word "list"
    ∷ number page
    ∷ number size
    ∷ word search
    ∷ word status
    ∷ word date
    ∷ []
key_of (installments customer) = word "sales" ∷ word "installments" ∷ word customer ∷ []
key_of parked = word "sales" ∷ word "parked" ∷ []
key_of parked_count = word "sales" ∷ word "parkedCount" ∷ []
key_of categories = word "categories" ∷ []
key_of (dashboard_stats range) = word "dashboard_stats" ∷ word range ∷ []
key_of finance_data = word "finance_data" ∷ []
key_of (purchase_orders status) = word "purchaseOrders" ∷ optional status ∷ []
key_of (shift_history limit) = word "shifts" ∷ word "history" ∷ number limit ∷ []
key_of (shift_movements shift) = word "shifts" ∷ word "movements" ∷ optional shift ∷ []
key_of staff = word "staff" ∷ []
key_of staff_reports = word "reports" ∷ word "staff" ∷ []
key_of discounts = word "discounts" ∷ []

-- The functions that invalidate, each by the filters that it gives in turn.
pub data Invalidation : Type 0 where
  all_data products customers sales finance shifts staff_lists discount_codes : Invalidation

unfoldable pub filters_of : Invalidation → List Key
filters_of all_data = [] ∷ []
filters_of products =
    (word "products" ∷ [])
    ∷ (word "inventory" ∷ [])
    ∷ (word "stockMovements" ∷ [])
    ∷ (word "dashboard_stats" ∷ [])
    ∷ (word "reports" ∷ [])
    ∷ []
filters_of customers =
    (word "customers" ∷ [])
    ∷ (word "reports" ∷ word "customers" ∷ [])
    ∷ (word "dashboard_stats" ∷ [])
    ∷ []
filters_of sales =
    (word "sales" ∷ [])
    ∷ (word "finance_data" ∷ [])
    ∷ (word "dashboard_stats" ∷ [])
    ∷ (word "reports" ∷ [])
    ∷ []
filters_of finance =
    (word "finance_data" ∷ [])
    ∷ (word "suppliers" ∷ [])
    ∷ (word "purchaseOrders" ∷ [])
    ∷ (word "reports" ∷ word "expenses" ∷ [])
    ∷ (word "dashboard_stats" ∷ [])
    ∷ (word "shifts" ∷ [])
    ∷ []
filters_of shifts = (word "shifts" ∷ []) ∷ (word "finance_data" ∷ []) ∷ (word "reports" ∷ []) ∷ []
filters_of staff_lists = (word "staff" ∷ []) ∷ (word "reports" ∷ word "staff" ∷ []) ∷ []
filters_of discount_codes = (word "discounts" ∷ []) ∷ []

-- The query is refetched after the invalidation.
unfoldable pub is_refreshed : Invalidation → Query → Bool
unfolding filters_of key_of begins_with
is_refreshed i q = any (λ f. begins_with f (key_of q)) (filters_of i)

-- The invalidation that a query's own part of the program makes.
abbrev pub owner : Query → Invalidation
owner (product_list search category status) = products
owner (inventory_products page size search category supplier kind) = products
owner inventory_movements = products
owner inventory_metadata = products
owner customer_list = customers
owner (customers_paged page size search) = customers
owner supplier_list = finance
owner (suppliers_paged page size search) = finance
owner (sale_list page size search status date) = sales
owner (installments customer) = sales
owner parked = sales
owner parked_count = sales
owner categories = all_data
owner (dashboard_stats range) = sales
owner finance_data = finance
owner (purchase_orders status) = finance
owner (shift_history limit) = shifts
owner (shift_movements shift) = shifts
owner staff = staff_lists
owner staff_reports = staff_lists
owner discounts = discount_codes

by_owner : (q : Query) → is_refreshed (owner q) q ≡ true
unfolding is_refreshed
by_owner (product_list search category status) = refl
by_owner (inventory_products page size search category supplier kind) = refl
by_owner inventory_movements = refl
by_owner inventory_metadata = refl
by_owner customer_list = refl
by_owner (customers_paged page size search) = refl
by_owner supplier_list = refl
by_owner (suppliers_paged page size search) = refl
by_owner (sale_list page size search status date) = refl
by_owner (installments customer) = refl
by_owner parked = refl
by_owner parked_count = refl
by_owner categories = refl
by_owner (dashboard_stats range) = refl
by_owner finance_data = refl
by_owner (purchase_orders status) = refl
by_owner (shift_history limit) = refl
by_owner (shift_movements shift) = refl
by_owner staff = refl
by_owner staff_reports = refl
by_owner discounts = refl

by_all : (q : Query) → is_refreshed all_data q ≡ true
unfolding is_refreshed
by_all q = refl

of_categories :
    (i : Invalidation) → is_refreshed i categories ≡ (elim i [ all_data ↦ true | _ ↦ false ])
unfolding is_refreshed
of_categories all_data = refl
of_categories products = refl
of_categories customers = refl
of_categories sales = refl
of_categories finance = refl
of_categories shifts = refl
of_categories staff_lists = refl
of_categories discount_codes = refl

-- Every query is refreshed by the invalidation of its own part of the program, whatever its filters and
-- page, and by the one of all data; the categories by no other than that.
pub every_query_is_refreshed :
    (q : Query) (i : Invalidation)
    → (is_refreshed (owner q) q ≡ true)
      × (is_refreshed all_data q ≡ true)
      × (is_refreshed i categories ≡ (elim i [ all_data ↦ true | _ ↦ false ]))
every_query_is_refreshed q i = (by_owner q, by_all q, of_categories i)
