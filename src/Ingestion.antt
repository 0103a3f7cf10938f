-- ===== src/Ingestion.antt =====
-- web/services/ingestion.py: one row of a sales load, with the statements of web/db/sales.py and `decrement_stock` of
-- web/db/inventory.py. What the server refuses of a value or of a reference is a parameter; the keys are here.
pub mod Balanced
pub mod Sellable
pub mod Stock
use Prim.Native.Nat.{min}
use retail_segmentation.Prelude.{
  ℕ, zero, suc, ◌+◌, ◌-◌, ◌*◌, ◌/◌, ◌%◌, ◌^◌, Bool, true, false, not, ◌&&◌, ◌||◌, Option, none,
  some, List, [], ◌∷◌, ◌++◌, map, any, find_first, if◌then◌else◌, ltb, leb, ◌==◌, ℤ, pos, negsuc,
  String, str_eq, Result, ok, err, ◌>>=◌, ◌>>◌, raise_if,
}
use retail_segmentation.Segmentation.Domain.{observed}
use retail_segmentation.Segmentation.Window.{strip, drop_space}

-- A finite decimal is its sign, its digits and how many of them are decimal places.
pub data Price : Type 0 where
  finite : (is_negative : Bool) (digits places : ℕ) → Price
  not_finite : Price

-- An id that is not a str is none; a moment is its second, whether it has a UTC offset, and its date there.
pub record SalesRow : Type 0 where
  pub source_transaction_id : Option (List ℕ)
  pub customer_id : ℕ
  pub store_id : ℕ
  pub channel_id : ℕ
  pub occurred_at : ℕ
  pub has_offset : Bool
  pub occurred_on : ℕ
  pub product_id : ℕ
  pub quantity : ℤ
  pub unit_price : Price

pub data SqlError : Type 0 where
  foreign_key_violation : (constraint : String) → SqlError
  unique_violation : SqlError
  invalid_text data_too_long out_of_range other_data_error : SqlError

-- `RowRejected`, by what its message says.
pub data Rejected : Type 0 where
  source_required source_formula no_offset in_future : Rejected
  quantity_not_positive price_not_finite price_not_positive price_too_fine : Rejected
  unknown_customer before_registration unknown_product product_inactive : Rejected
  created_concurrently seeded_sale header_disagrees duplicate_line : Rejected
  malformed : SqlError → Rejected
  unknown_reference : (entity : String) → Rejected
  no_inventory : Rejected
  insufficient_stock : (available : ℕ) → Rejected

pub record Header : Type 0 where
  pub transaction_id : ℕ
  pub source_transaction_id : List ℕ
  pub customer_id : ℕ
  pub store_id : ℕ
  pub channel_id : ℕ
  pub occurred_at : ℕ
  pub total : ℕ
  pub data_origin : String

pub record SaleLine : Type 0 where
  pub transaction_id : ℕ
  pub product_id : ℕ
  pub quantity : ℕ
  pub unit_price : ℕ

pub record StockRow : Type 0 where
  pub store_id : ℕ
  pub product_id : ℕ
  pub quantity_on_hand : ℕ

pub record Customer : Type 0 where
  pub customer_id : ℕ
  pub registered_on : ℕ

pub record Product : Type 0 where
  pub product_id : ℕ
  pub is_active : Bool

pub record Shop : Type 0 where
  pub now : ℕ
  pub customers : List Customer
  pub products : List Product
  pub next_transaction_id : ℕ
  pub headers : List Header
  pub lines : List SaleLine
  pub inventory : List StockRow

-- What the server refuses of a statement's values, beyond the keys of the tables.
pub record Server : Type 0 where
  pub references_refused : SalesRow → Option SqlError
  pub header_refused : SalesRow → Option SqlError
  pub line_refused : SalesRow → Option SqlError

abbrev pub same_text : List ℕ → List ℕ → Bool
same_text [] [] = true
same_text [] (b ∷ bs) = false
same_text (a ∷ text) [] = false
same_text (a ∷ text) (b ∷ bs) = (a == b) && same_text text bs

-- The text starts with one of `=`, `+`, `-` and `@`.
abbrev starts_formula : List ℕ → Bool
starts_formula [] = false
starts_formula (c ∷ text) = c == b'=' || c == b'+' || c == b'-' || c == b'@'

pub is_spreadsheet_formula : List ℕ → Bool
unfolding drop_space
is_spreadsheet_formula text = starts_formula (drop_space text)

pub source_of : Option (List ℕ) → Result Rejected (List ℕ)
unfolding strip is_spreadsheet_formula
source_of none = err source_required
source_of (some raw) = do
  let source = strip raw
  raise_if (same_text source []) source_required
  raise_if (is_spreadsheet_formula source) source_formula
  ok source

-- A quantity of at least 1.
abbrev pub quantity_of : ℤ → Result Rejected ℕ
quantity_of (pos zero) = err quantity_not_positive
quantity_of (pos (suc n)) = ok (suc n)
quantity_of (negsuc n) = err quantity_not_positive

-- The price in cents: positive, within the 28 digits that `quantize` keeps, and of at most two decimal places.
pub cents_of : Price → Result Rejected ℕ
cents_of not_finite = err price_not_finite
cents_of (finite is_negative digits places) = do
  raise_if (is_negative || digits == 0) price_not_positive
  raise_if (leb (10 ^ 28) (digits * 100 / 10 ^ places)) price_too_fine
  raise_if (not (digits * 100 % 10 ^ places == 0)) price_too_fine
  ok (digits * 100 / 10 ^ places)

abbrev unknown : String → Rejected
unknown constraint = unknown_reference (
    if str_eq constraint "transaction_customer_id_fkey"
    then "customer"
    else if str_eq constraint "transaction_store_id_fkey"
    then "store"
    else if str_eq constraint "transaction_channel_id_fkey"
    then "channel"
    else if str_eq constraint "transaction_line_product_id_fkey"
    then "product"
    else "reference")

-- The `except` clauses after an insert, given what a unique violation means there.
abbrev rejected : Rejected → SqlError → Rejected
rejected duplicate (foreign_key_violation constraint) = unknown constraint
rejected duplicate unique_violation = duplicate
rejected duplicate invalid_text = malformed invalid_text
rejected duplicate data_too_long = malformed data_too_long
rejected duplicate out_of_range = malformed out_of_range
rejected duplicate other_data_error = malformed other_data_error

abbrev pub unless : Option SqlError → Rejected → Result Rejected Unit
unless none duplicate = ok tt
unless (some e) duplicate = err (rejected duplicate e)

abbrev pub known : {A : Type 0} → Option A → Rejected → Result Rejected A
known none e = err e
known (some a) e = ok a

-- The checks against `get_sale_references`.
pub check_references : Server → Shop → SalesRow → Result Rejected Unit
check_references server shop row = do
  unless (server.references_refused row) unknown_customer
  customer ←
      known (find_first (λ (c : Customer). c.customer_id == row.customer_id) shop.customers)
        unknown_customer
  raise_if (ltb row.occurred_on customer.registered_on) before_registration
  product ←
      known (find_first (λ (p : Product). p.product_id == row.product_id) shop.products)
        unknown_product
  raise_if (not product.is_active) product_inactive

-- The values that are stored of a row that passed every check before the first write.
pub record Accepted : Type 0 where
  pub source : List ℕ
  pub quantity : ℕ
  pub cents : ℕ

unfoldable pub accept : Server → Shop → SalesRow → Result Rejected Accepted
unfolding source_of cents_of check_references
accept server shop row = do
  source ← source_of row.source_transaction_id
  raise_if (not row.has_offset) no_offset
  raise_if (ltb shop.now row.occurred_at) in_future
  quantity ← quantity_of row.quantity
  cents ← cents_of row.unit_price
  check_references server shop row
  ok (record { source = source; quantity = quantity; cents = cents })

abbrev pub disagrees : Header → SalesRow → Bool
disagrees header row =
    not (header.customer_id == row.customer_id)
    || not (header.store_id == row.store_id)
    || not (header.channel_id == row.channel_id)
    || not (header.occurred_at == row.occurred_at)

abbrev pub new_header : Shop → SalesRow → List ℕ → Header
new_header shop row source = record {
  transaction_id = shop.next_transaction_id;
  source_transaction_id = source;
  customer_id = row.customer_id;
  store_id = row.store_id;
  channel_id = row.channel_id;
  occurred_at = row.occurred_at;
  total = 0;
  data_origin = observed;
}

abbrev pub with_header : Shop → SalesRow → List ℕ → Shop
with_header shop row source = record shop {
  next_transaction_id = shop.next_transaction_id + 1;
  headers = shop.headers ++ new_header shop row source ∷ [];
}

-- The header of the sale, found or inserted, and the tables with it.
pub header_for : Server → Shop → SalesRow → List ℕ → Option Header → Result Rejected (ℕ × Shop)
header_for server shop row source none = do
  unless (server.header_refused row) created_concurrently
  ok (shop.next_transaction_id, with_header shop row source)
header_for server shop row source (some header) = do
  raise_if (not (str_eq header.data_origin observed)) seeded_sale
  raise_if (disagrees header row) header_disagrees
  ok (header.transaction_id, shop)

abbrev pub is_of : ℕ → ℕ → SaleLine → Bool
is_of transaction_id product_id line =
    line.transaction_id == transaction_id && line.product_id == product_id

-- `insert_transaction_line`, under the primary key of its table.
pub add_line : Server → SalesRow → Accepted → ℕ → Shop → Result Rejected Shop
add_line server row accepted transaction_id shop = do
  raise_if (any (is_of transaction_id row.product_id) shop.lines) duplicate_line
  unless (server.line_refused row) duplicate_line
  ok (record shop {
    lines =
        shop.lines
        ++ record {
          transaction_id = transaction_id;
          product_id = row.product_id;
          quantity = accepted.quantity;
          unit_price = accepted.cents;
        }
          ∷ [];
  })

abbrev pub is_at : ℕ → ℕ → StockRow → Bool
is_at store_id product_id stock = stock.store_id == store_id && stock.product_id == product_id

abbrev pub taken : ℕ → ℕ → ℕ → StockRow → StockRow
taken store_id product_id quantity stock =
    if is_at store_id product_id stock && leb quantity stock.quantity_on_hand
    then record stock { quantity_on_hand = stock.quantity_on_hand - quantity }
    else stock

abbrev pub enough : ℕ → Option StockRow → Result Rejected Unit
enough quantity none = err no_inventory
enough quantity (some stock) =
    raise_if (ltb stock.quantity_on_hand quantity) (insufficient_stock stock.quantity_on_hand)

-- The conditional update, and the read that tells why it updated nothing.
pub decrement_stock : SalesRow → ℕ → Shop → Result Rejected Shop
decrement_stock row quantity shop = do
  enough quantity (find_first (is_at row.store_id row.product_id) shop.inventory)
  ok (record shop { inventory = map (taken row.store_id row.product_id quantity) shop.inventory })

-- The sum of the lines of a transaction.
abbrev pub sum_of : ℕ → List SaleLine → ℕ
sum_of transaction_id [] = 0
sum_of transaction_id (line ∷ lines) =
    let rest = sum_of transaction_id lines in
    if line.transaction_id == transaction_id then line.quantity * line.unit_price + rest else rest

abbrev pub retotalled : ℕ → List SaleLine → Header → Header
retotalled transaction_id lines header =
    if header.transaction_id == transaction_id
    then record header { total = sum_of transaction_id lines }
    else header

pub recompute_total : ℕ → Shop → Shop
recompute_total transaction_id shop = record shop {
  headers = map (retotalled transaction_id shop.lines) shop.headers;
}

-- The writes, in their order; a later refusal undoes the earlier ones, so only their result is kept.
unfoldable pub written : Server → Shop → SalesRow → Accepted → Result Rejected Shop
unfolding header_for add_line decrement_stock recompute_total
written server shop row accepted = do
  found ←
      header_for server shop row accepted.source (
        find_first (λ (h : Header). same_text h.source_transaction_id accepted.source) shop.headers)
  lined ← add_line server row accepted found.0 found.1
  stocked ← decrement_stock row accepted.quantity lined
  ok (recompute_total found.0 stocked)

abbrev committed : Shop → Result Rejected Shop → Result Rejected Unit × Shop
committed shop (ok after) = (ok tt, after)
committed shop (err e) = (err e, shop)

-- On a connection that no unit of work holds: what is committed is the whole row, or nothing.
unfoldable pub ingest_row : Server → Shop → SalesRow → Result Rejected Unit × Shop
unfolding accept written
ingest_row server shop row = committed shop (accept server shop row >>= written server shop row)
