-- ===== src/Ingestion/Balanced.antt =====
-- The totals of the headers under `ingest_row` of web/services/ingestion.py.
use retail_segmentation.Segmentation.Domain.{observed}
use retail_segmentation.Prelude.{
  bind_ok, ok_injective, raise_if, str_eq, ℕ, ◌≡◌, refl, sym, false, not, Option, none, some, List,
  [], ◌∷◌, ◌++◌, map, any, ◌==◌, find_first, arith, Bool-cases, inl, inr, ◌⊎◌, Result-cases, ok,
  ◌>>=◌, All, All-append, All-mono,
}
use retail_segmentation.Ingestion.{
  unless, new_header, disagrees, enough, is_of, is_at, created_concurrently, seeded_sale,
  header_disagrees, duplicate_line, Accepted, Header, SaleLine, SalesRow, Server, Shop, accept,
  add_line, decrement_stock, header_for, ingest_row, recompute_total, retotalled, same_text, sum_of,
  with_header, written,
}

abbrev pub IsBalanced : Shop → Type 0
IsBalanced shop = All (λ (h : Header). h.total ≡ sum_of h.transaction_id shop.lines) shop.headers

-- Balanced, but for the headers of one transaction.
abbrev IsBalancedBut : ℕ → List SaleLine → List Header → Type 0
IsBalancedBut t lines =
    All (λ (h : Header). (h.transaction_id ≡ t) ⊎ (h.total ≡ sum_of h.transaction_id lines))

sum_of-append :
    (i : ℕ) (lines : List SaleLine) (line : SaleLine)
    → (line.transaction_id == i) ≡ false
    → sum_of i (lines ++ line ∷ []) ≡ sum_of i lines
sum_of-append i [] line other = rw other refl
sum_of-append i (l ∷ lines) line other = rw (sum_of-append i lines line other) refl

retotalled-IsBalanced :
    (t : ℕ) (lines : List SaleLine) (line : SaleLine) (headers : List Header)
    → line.transaction_id ≡ t
    → IsBalancedBut t lines headers
    → All
        (λ (h : Header). h.total ≡ sum_of h.transaction_id (lines ++ line ∷ []))
        (map (retotalled t (lines ++ line ∷ [])) headers)
retotalled-IsBalanced t lines line [] own b = tt
retotalled-IsBalanced t lines line (h ∷ headers) own b = (
  elim (Bool-cases (h.transaction_id == t)) [
    | inl same ↦ let e : h.transaction_id ≡ t = ground arith in rw same (rw e refl)
    | inr other ↦
        let apart : (line.transaction_id == h.transaction_id) ≡ false = ground arith in
        rw other (elim b.0 [
          | inl e ↦ ground arith
          | inr kept ↦ rw (sum_of-append h.transaction_id lines line apart) kept
        ])
  ],
  retotalled-IsBalanced t lines line headers own b.1,
)

kept : (t : ℕ) (shop : Shop) → IsBalanced shop → IsBalancedBut t shop.lines shop.headers
kept t shop b =
    All-mono (λ (h : Header). h.total ≡ sum_of h.transaction_id shop.lines)
      (λ (h : Header). (h.transaction_id ≡ t) ⊎ (h.total ≡ sum_of h.transaction_id shop.lines))
      (λ h e. inr e) shop.headers b

-- What a found or new header leaves to balance.
header_for-IsBalancedBut :
    (server : Server) (shop : Shop) (row : SalesRow) (source : List ℕ) (o : Option Header)
    (found : ℕ × Shop)
    → IsBalanced shop
    → header_for server shop row source o ≡ ok found
    → IsBalancedBut found.0 found.1.lines found.1.headers
unfolding header_for
header_for-IsBalancedBut server shop row source none found b h =
    let (u, passed, rest) =
      bind_ok (unless (server.header_refused row) created_concurrently) _ found h in
    let e : found ≡ (shop.next_transaction_id, with_header shop row source) =
      sym (ok_injective rest) in
    rw e (
      All-append
        (λ (k : Header).
          (k.transaction_id ≡ shop.next_transaction_id)
          ⊎ (k.total ≡ sum_of k.transaction_id shop.lines))
        shop.headers (new_header shop row source ∷ []) (kept shop.next_transaction_id shop b)
        (inl refl, tt))
header_for-IsBalancedBut server shop row source (some header) found b h =
    let (u, passed, more) =
      bind_ok (raise_if (not (str_eq header.data_origin observed)) seeded_sale) _ found h in
    let (v, agreed, rest) =
      bind_ok (raise_if (disagrees header row) header_disagrees) _ found more in
    let e : found ≡ (header.transaction_id, shop) = sym (ok_injective rest) in
    rw e (kept header.transaction_id shop b)

written-IsBalanced :
    (server : Server) (shop : Shop) (row : SalesRow) (accepted : Accepted) (after : Shop)
    → IsBalanced shop
    → written server shop row accepted ≡ ok after
    → IsBalanced after
unfolding written add_line decrement_stock recompute_total
written-IsBalanced server shop row accepted after b h =
    let o =
      find_first (λ (k : Header). same_text k.source_transaction_id accepted.source) shop.headers in
    let (found, has, more) = bind_ok (header_for server shop row accepted.source o) _ after h in
    let (lined, added, last) =
      bind_ok (add_line server row accepted found.0 found.1) _ after more in
    let (u, once, added') =
      bind_ok (raise_if (any (is_of found.0 row.product_id) found.1.lines) duplicate_line) _ lined
        added in
    let (v, stored, line) =
      bind_ok (unless (server.line_refused row) duplicate_line) _ lined added' in
    let (stocked, sold, end) = bind_ok (decrement_stock row accepted.quantity lined) _ after last in
    let (w, there, taken_off) =
      bind_ok
        (enough accepted.quantity (find_first (is_at row.store_id row.product_id) lined.inventory))
        _ stocked sold in
    let e1 = sym (ok_injective line) in
    let e2 = sym (ok_injective taken_off) in
    let e3 = sym (ok_injective end) in
    rw (e3, e2, e1)
      (retotalled-IsBalanced found.0 found.1.lines
        (record {
          transaction_id = found.0;
          product_id = row.product_id;
          quantity = accepted.quantity;
          unit_price = accepted.cents;
        })
        found.1.headers refl
        (header_for-IsBalancedBut server shop row accepted.source o found b has))

-- Whether a row of a load is accepted or refused, at whatever step, every header's total is the sum of its
-- lines afterwards if it was before.
pub ingest_row-IsBalanced :
    (server : Server) (shop : Shop) (row : SalesRow)
    → IsBalanced shop
    → IsBalanced (ingest_row server shop row).1
unfolding ingest_row
ingest_row-IsBalanced server shop row b =
    elim (Result-cases (accept server shop row >>= written server shop row)) [
      | inr (e, refused) ↦ rw refused b
      | inl (after, done) ↦
          let (accepted, passed, rest) =
            bind_ok (accept server shop row) (written server shop row) after done in
          rw done (written-IsBalanced server shop row accepted after b rest)
    ]
