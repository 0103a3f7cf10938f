-- ===== src/Tests/Ingestion.antt =====
-- Loading a sale, at a concrete shop.
use retail_segmentation.Prelude.{
  ◌-◌, ◌≤◌, ◌≡◌, ◌&&◌, refl, true, false, none, some, [], ◌∷◌, ◌++◌, ℕ, ok, pos, ◌==◌,
  if◌then◌else◌,
}
use retail_segmentation.Segmentation.Window.{drop_space, strip}
use retail_segmentation.Ingestion.{
  Accepted, Price, SalesRow, Server, Shop, accept, ingest_row, written,
}
use retail_segmentation.Ingestion.Balanced.{IsBalanced, ingest_row-IsBalanced}
use retail_segmentation.Ingestion.Sellable.{IsSellable}
use retail_segmentation.Ingestion.Stock.{ingest_row-on_hand, on_hand, sold_line}

abbrev willing : Server
willing = record {
  references_refused = λ r. none;
  header_refused = λ r. none;
  line_refused = λ r. none;
}

abbrev market : Shop
market = record {
  now = 5000;
  customers = record { customer_id = 1; registered_on = 2 } ∷ [];
  products = record { product_id = 7; is_active = true } ∷ [];
  next_transaction_id = 10;
  headers =
      record {
        transaction_id = 9;
        source_transaction_id = 65 ∷ [];
        customer_id = 1;
        store_id = 3;
        channel_id = 1;
        occurred_at = 3000;
        total = 500;
        data_origin = "OBSERVED";
      }
      ∷ [];
  lines = record { transaction_id = 9; product_id = 8; quantity = 2; unit_price = 250 } ∷ [];
  inventory = record { store_id = 3; product_id = 7; quantity_on_hand = 4 } ∷ [];
}

-- A second line of the transaction `A`: three pieces at 1.50.
abbrev sale : SalesRow
sale = record {
  source_transaction_id = some (32 ∷ 65 ∷ []);
  customer_id = 1;
  store_id = 3;
  channel_id = 1;
  occurred_at = 3000;
  has_offset = true;
  occurred_on = 4;
  product_id = 7;
  quantity = pos 3;
  unit_price = Price.finite false 15 1;
}

sale_accepted : (ingest_row willing market sale).0 ≡ ok tt
unfolding ingest_row accept written strip drop_space
sale_accepted = refl

ingest_row-IsBalanced_example : IsBalanced (ingest_row willing market sale).1
ingest_row-IsBalanced_example = ingest_row-IsBalanced willing market sale (refl, tt)

ingest_row-on_hand_example :
    (accepted : Accepted) × IsSellable market sale accepted
    × (accepted.quantity ≤ on_hand sale.store_id sale.product_id market.inventory)
    × (on_hand 3 7 (ingest_row willing market sale).1.inventory ≡ (
        if (sale.store_id == 3) && (sale.product_id == 7)
        then on_hand 3 7 market.inventory - accepted.quantity
        else on_hand 3 7 market.inventory))
    × ((transaction_id : ℕ) × ((ingest_row willing market sale).1.lines
          ≡ market.lines ++ sold_line transaction_id sale accepted ∷ []))
ingest_row-on_hand_example = ingest_row-on_hand willing market sale 3 7 sale_accepted
