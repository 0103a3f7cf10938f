-- ===== src/Ingestion/Sellable.antt =====
-- What the checks of `ingest_row` of web/services/ingestion.py let through.
use native.Mathlib.Nat.{div-add-mod'}
use mathlib.Core.List.{Mem, mem-cons_self, mem-cons_of_mem}
use retail_segmentation.Prelude.{
  bind_ok, ok_injective, raise_if, ℕ, suc, zero, ◌*◌, ◌/◌, ◌%◌, ◌^◌, ◌≤◌, ◌≡◌, ◌≢◌, refl, sym, Bool,
  true, false, not, Option, none, some, List, [], ◌∷◌, leb, ltb, ◌==◌, find_first, find_first-true,
  some_injective, arith, Bool-cases, inl, inr, ok, ℤ, pos, negsuc, ap,
}
use retail_segmentation.Segmentation.Window.{strip}
use retail_segmentation.Ingestion.{
  Accepted, Customer, Price, Product, SalesRow, Server, Shop, accept, before_registration, cents_of,
  check_references, in_future, is_spreadsheet_formula, known, no_offset, price_not_positive,
  price_too_fine, quantity_of, same_text, source_formula, source_of, source_required,
  unknown_customer, unknown_product, unless,
}

-- A row that can be sold: what is stored of it is its id without the outer spaces, its quantity and its price in
-- cents, all positive; it is not of the future, its customer was registered by then, and its product is active.
pub record IsSellable (shop : Shop) (row : SalesRow) (accepted : Accepted) : Type 0 where
  pub identified :
      (raw : List ℕ) × (row.source_transaction_id ≡ some raw)
      × (accepted.source ≡ strip raw)
      × (accepted.source ≢ [])
  pub asked : row.quantity ≡ pos accepted.quantity
  pub some_asked : 1 ≤ accepted.quantity
  pub priced :
      (digits : ℕ) × (places : ℕ) × (row.unit_price ≡ Price.finite false digits places)
      × (accepted.cents * 10 ^ places ≡ digits * 100)
      × (1 ≤ digits)
  pub with_offset : row.has_offset ≡ true
  pub past : row.occurred_at ≤ shop.now
  pub registered :
      (customer : Customer) × Mem customer shop.customers
      × (customer.customer_id ≡ row.customer_id)
      × (customer.registered_on ≤ row.occurred_on)
  pub active :
      (product : Product) × Mem product shop.products
      × (product.product_id ≡ row.product_id)
      × (product.is_active ≡ true)

passed : {E : Type 0} (b : Bool) (e : E) (u : Unit) → raise_if b e ≡ ok u → b ≡ false
passed true e u h = cc
passed false e u h = refl

known_lem : {A : Type 0} (o : Option A) (e : _) (a : A) → known o e ≡ ok a → o ≡ some a
known_lem none e a h = cc
known_lem (some b) e a h = ap some (ok_injective h)

find_first-Mem :
    {A : Type 0} (p : A → Bool) (xs : List A) (a : A) → find_first p xs ≡ some a → Mem a xs
find_first-Mem p [] a h = cc
find_first-Mem p (x ∷ xs) a h = elim (Bool-cases (p x)) [
  | inl t ↦ let e = some_injective (rw t at h) in rw (← e) (mem-cons_self {a = x} {l = xs})
  | inr f ↦ mem-cons_of_mem x (find_first-Mem p xs a (rw f at h))
]

quantity_of_lem : (z : ℤ) (q : ℕ) → quantity_of z ≡ ok q → (z ≡ pos q) × (1 ≤ q)
quantity_of_lem (pos zero) q h = cc
quantity_of_lem (pos (suc n)) q h = let e = ok_injective h in (ap pos e, omega arith)
quantity_of_lem (negsuc n) q h = cc

source_of_lem :
    (o : Option (List ℕ)) (s : List ℕ)
    → source_of o ≡ ok s
    → (raw : List ℕ) × (o ≡ some raw) × (s ≡ strip raw) × (s ≢ [])
unfolding source_of
source_of_lem none s h = cc
source_of_lem (some raw) s h =
    let (u, there, more) = bind_ok (raise_if (same_text (strip raw) []) source_required) _ s h in
    let (v, plain, rest) =
      bind_ok (raise_if (is_spreadsheet_formula (strip raw)) source_formula) _ s more in
    let e = ok_injective rest in
    let full : same_text (strip raw) [] ≡ false = passed _ _ u there in
    (
      raw,
      refl,
      sym e,
      λ empty. let bad : same_text (strip raw) [] ≡ true = rw (e, empty) refl in cc,
    )

cents_of_lem :
    (price : Price) (cents : ℕ)
    → cents_of price ≡ ok cents
    → (digits : ℕ) × (places : ℕ) × (price ≡ Price.finite false digits places)
      × (cents * 10 ^ places ≡ digits * 100)
      × (1 ≤ digits)
unfolding cents_of
cents_of_lem Price.not_finite cents h = cc
cents_of_lem (Price.finite true digits places) cents h = cc
cents_of_lem (Price.finite false digits places) cents h =
    let (u, over, more) = bind_ok (raise_if (digits == 0) price_not_positive) _ cents h in
    let (v, short, last) =
      bind_ok (raise_if (leb (10 ^ 28) (digits * 100 / 10 ^ places)) price_too_fine) _ cents more in
    let (w, even, rest) =
      bind_ok (raise_if (not (digits * 100 % 10 ^ places == 0)) price_too_fine) _ cents last in
    let e = ok_injective rest in
    let a = passed _ _ u over in
    let b = passed _ _ w even in
    (
      digits,
      places,
      refl,
      rw (← e) (
          let whole = div-add-mod' (digits * 100) (10 ^ places) in
          let none_left : digits * 100 % 10 ^ places ≡ 0 = ground arith in omega arith),
      ground arith,
    )

check_references_lem :
    (server : Server) (shop : Shop) (row : SalesRow) (u : Unit)
    → check_references server shop row ≡ ok u
    → ((customer : Customer) × Mem customer shop.customers
        × (customer.customer_id ≡ row.customer_id)
        × (customer.registered_on ≤ row.occurred_on))
      × ((product : Product) × Mem product shop.products
          × (product.product_id ≡ row.product_id)
          × (product.is_active ≡ true))
unfolding check_references
check_references_lem server shop row u h =
    let is_buyer = λ (c : Customer). c.customer_id == row.customer_id in
    let is_sold = λ (p : Product). p.product_id == row.product_id in
    let (a, answered, h1) =
      bind_ok (unless (server.references_refused row) unknown_customer) _ u h in
    let (c, buyer, h2) =
      bind_ok (known (find_first is_buyer shop.customers) unknown_customer) _ u h1 in
    let (d, since, h3) =
      bind_ok (raise_if (ltb row.occurred_on c.registered_on) before_registration) _ u h2 in
    let (p, sold, h4) = bind_ok (known (find_first is_sold shop.products) unknown_product) _ u h3 in
    let found = known_lem _ _ c buyer in
    let found' = known_lem _ _ p sold in
    let same = find_first-true is_buyer shop.customers c found in
    let same' = find_first-true is_sold shop.products p found' in
    let early = passed _ _ d since in
    let live = passed _ _ u h4 in
    (
      (c, find_first-Mem is_buyer shop.customers c found, ground arith, ground arith),
      (p, find_first-Mem is_sold shop.products p found', ground arith, ground arith),
    )

-- Only a row that can be sold is accepted, and with its own values.
pub accept-IsSellable :
    (server : Server) (shop : Shop) (row : SalesRow) (accepted : Accepted)
    → accept server shop row ≡ ok accepted
    → IsSellable shop row accepted
unfolding accept
accept-IsSellable server shop row accepted h =
    let (source, named, h1) = bind_ok (source_of row.source_transaction_id) _ accepted h in
    let (a, offset, h2) = bind_ok (raise_if (not row.has_offset) no_offset) _ accepted h1 in
    let (b, past, h3) = bind_ok (raise_if (ltb shop.now row.occurred_at) in_future) _ accepted h2 in
    let (q, asked, h4) = bind_ok (quantity_of row.quantity) _ accepted h3 in
    let (cents, priced, h5) = bind_ok (cents_of row.unit_price) _ accepted h4 in
    let (c, refs, h6) = bind_ok (check_references server shop row) _ accepted h5 in
    let e : record { source = source; quantity = q; cents = cents } ≡ accepted = ok_injective h6 in
    let t = passed _ _ a offset in
    let l = passed _ _ b past in
    let known_refs = check_references_lem server shop row c refs in
    rw (← e) (record {
      identified = source_of_lem row.source_transaction_id source named;
      asked = (quantity_of_lem row.quantity q asked).0;
      some_asked = (quantity_of_lem row.quantity q asked).1;
      priced = cents_of_lem row.unit_price cents priced;
      with_offset = ground arith;
      past = ground arith;
      registered = known_refs.0;
      active = known_refs.1;
    })
