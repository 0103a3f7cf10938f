-- ===== src/Ingestion/Stock.antt =====
-- The stock under `ingest_row` of web/services/ingestion.py.
use retail_segmentation.Prelude.{
  bind_ok, ok_injective, raise_if, str_eq, ◌∙◌, ℕ, ◌-◌, ◌≤◌, ◌≡◌, refl, sym, true, not, ◌&&◌,
  Option, none, some, List, [], ◌∷◌, ◌++◌, map, any, leb, ◌==◌, if◌then◌else◌, find_first, arith,
  Bool-cases, inl, inr, Result-cases, ok, err, ◌>>=◌,
}
use retail_segmentation.Segmentation.Domain.{observed}
use retail_segmentation.Ingestion.{
  Accepted, Header, SaleLine, SalesRow, Server, Shop, StockRow, accept, add_line, decrement_stock,
  duplicate_line, enough, header_for, ingest_row, is_at, is_of, recompute_total, same_text, taken,
  unless, written, with_header, created_concurrently, seeded_sale, header_disagrees, disagrees,
}
use retail_segmentation.Ingestion.Sellable.{IsSellable, accept-IsSellable}

-- The quantity on hand of a product at a store, which is 0 without a row.
pub on_hand : ℕ → ℕ → List StockRow → ℕ
on_hand s p [] = 0
on_hand s p (row ∷ rows) =
    let rest = on_hand s p rows in if is_at s p row then row.quantity_on_hand else rest

on_hand-taken :
    (s p q : ℕ) (rows : List StockRow) (t u : ℕ)
    → on_hand t u (map (taken s p q) rows) ≡ (
        if (s == t) && (p == u) && leb q (on_hand s p rows)
        then on_hand t u rows - q
        else on_hand t u rows)
unfolding on_hand
on_hand-taken s p q [] t u = ground arith
on_hand-taken s p q (row ∷ rows) t u =
    let rest = on_hand-taken s p q rows t u in
    elim (Bool-cases (is_at s p row)) [
      | inr there ↦ rw there (grind (arith, rest))
      | inl here ↦ elim (Bool-cases (leb q row.quantity_on_hand)) [
        | inl some_left ↦ rw (here, some_left) (grind (arith, rest))
        | inr short ↦ rw (here, short) (grind (arith, rest))
      ]
    ]

enough-on_hand :
    (s p q : ℕ) (rows : List StockRow) (w : Unit)
    → enough q (find_first (is_at s p) rows) ≡ ok w
    → q ≤ on_hand s p rows
unfolding on_hand
enough-on_hand s p q [] w h = cc
enough-on_hand s p q (row ∷ rows) w h = elim (Bool-cases (is_at s p row)) [
  | inl here ↦ rw here (ground (arith, rw here at h))
  | inr there ↦ rw there (enough-on_hand s p q rows w (rw there at h))
]

header_for-kept :
    (server : Server) (shop : Shop) (row : SalesRow) (source : List ℕ) (o : Option Header)
    (found : ℕ × Shop)
    → header_for server shop row source o ≡ ok found
    → (found.1.inventory ≡ shop.inventory) × (found.1.lines ≡ shop.lines)
unfolding header_for
header_for-kept server shop row source none found h =
    let (u, passed, rest) =
      bind_ok (unless (server.header_refused row) created_concurrently) _ found h in
    let e : found ≡ (shop.next_transaction_id, with_header shop row source) =
      sym (ok_injective rest) in
    rw e (refl, refl)
header_for-kept server shop row source (some header) found h =
    let (u, passed, more) =
      bind_ok (raise_if (not (str_eq header.data_origin observed)) seeded_sale) _ found h in
    let (v, agreed, rest) =
      bind_ok (raise_if (disagrees header row) header_disagrees) _ found more in
    let e : found ≡ (header.transaction_id, shop) = sym (ok_injective rest) in rw e (refl, refl)

-- The line of a row in a transaction.
abbrev pub sold_line : ℕ → SalesRow → Accepted → SaleLine
sold_line transaction_id row accepted = record {
  transaction_id = transaction_id;
  product_id = row.product_id;
  quantity = accepted.quantity;
  unit_price = accepted.cents;
}

written-on_hand :
    (server : Server) (shop : Shop) (row : SalesRow) (accepted : Accepted) (after : Shop) (t u : ℕ)
    → written server shop row accepted ≡ ok after
    → (accepted.quantity ≤ on_hand row.store_id row.product_id shop.inventory)
      × (on_hand t u after.inventory ≡ (
          if (row.store_id == t) && (row.product_id == u)
          then on_hand t u shop.inventory - accepted.quantity
          else on_hand t u shop.inventory))
      × ((transaction_id : ℕ) × (after.lines
            ≡ shop.lines ++ sold_line transaction_id row accepted ∷ []))
unfolding written add_line decrement_stock recompute_total
written-on_hand server shop row accepted after t u h =
    let o =
      find_first (λ (k : Header). same_text k.source_transaction_id accepted.source) shop.headers in
    let (found, has, more) = bind_ok (header_for server shop row accepted.source o) _ after h in
    let (lined, added, last) =
      bind_ok (add_line server row accepted found.0 found.1) _ after more in
    let (x, once, added') =
      bind_ok (raise_if (any (is_of found.0 row.product_id) found.1.lines) duplicate_line) _ lined
        added in
    let (v, stored, line) =
      bind_ok (unless (server.line_refused row) duplicate_line) _ lined added' in
    let (stocked, sold, end) = bind_ok (decrement_stock row accepted.quantity lined) _ after last in
    let (w, there, taken_off) =
      bind_ok
        (enough accepted.quantity (find_first (is_at row.store_id row.product_id) lined.inventory))
        _ stocked sold in
    let (same, same_lines) = header_for-kept server shop row accepted.source o found has in
    let e1 = sym (ok_injective line) in
    let lined_same : lined.inventory ≡ shop.inventory = rw e1 same in
    let least : accepted.quantity ≤ on_hand row.store_id row.product_id shop.inventory =
      rw lined_same at
        (enough-on_hand row.store_id row.product_id accepted.quantity lined.inventory w there) in
    let e2 = sym (ok_injective taken_off) in
    let e3 = sym (ok_injective end) in
    (
      least,
      rw (e3, e2, lined_same)
          (let q = on_hand-taken row.store_id row.product_id accepted.quantity shop.inventory t u in
            let fits : leb accepted.quantity (on_hand row.store_id row.product_id shop.inventory)
                ≡ true =
              ground arith in
            q ∙ rw fits (ground arith)),
      (found.0, rw (e3, e2, e1, same_lines)),
    )

-- A row of a load that is written could be sold: its customer was registered by then, its product is active, its
-- moment is not of the future. The stored quantity and price are the row's own, both positive. The store had that
-- quantity of the product; exactly that much is taken from it, and no other store or product loses anything; and
-- one line with that quantity and price is added to the lines.
pub ingest_row-on_hand :
    (server : Server) (shop : Shop) (row : SalesRow) (t u : ℕ)
    → (ingest_row server shop row).0 ≡ ok tt
    → (accepted : Accepted) × IsSellable shop row accepted
      × (accepted.quantity ≤ on_hand row.store_id row.product_id shop.inventory)
      × (on_hand t u (ingest_row server shop row).1.inventory ≡ (
          if (row.store_id == t) && (row.product_id == u)
          then on_hand t u shop.inventory - accepted.quantity
          else on_hand t u shop.inventory))
      × ((transaction_id : ℕ) × ((ingest_row server shop row).1.lines
            ≡ shop.lines ++ sold_line transaction_id row accepted ∷ []))
unfolding ingest_row
ingest_row-on_hand server shop row t u h =
    elim (Result-cases (accept server shop row >>= written server shop row)) [
      | inr (e, refused) ↦ let no : err e ≡ ok tt = rw refused at h in cc
      | inl (after, done) ↦
          let (accepted, passed, rest) =
            bind_ok (accept server shop row) (written server shop row) after done in
          let (least, left, lines) = written-on_hand server shop row accepted after t u rest in
          (
            accepted,
            accept-IsSellable server shop row accepted passed,
            least,
            rw done left,
            rw done lines,
          )
    ]
