-- ===== src/Segmentation/Scoring/Labelled.antt =====
-- The assignments of `rfm_rules_adapter` under the pipeline's checks (web/services/segmentation.py).
use retail_segmentation.Prelude.{
  inl, inr, ℕ, ◌≡◌, ◌≢◌, refl, false, ◌||◌, Option, none, some, List, [], ◌∷◌, map, arith, ◌==◌,
  ltb, ok, All, sort_by, insert_by, ◌∙◌,
}
use retail_segmentation.Segmentation.Domain.{Assignment}
use retail_segmentation.Segmentation.Checks.{
  contains, idents, Distinct, IsRecordable, validated, validated_complete,
}
use retail_segmentation.Segmentation.Store.{Db}
use retail_segmentation.Segmentation.Scoring.{
  Measures, window_sales, worst, chosen, row_of, assignment_of, rfm_output,
}

-- With a live segment in the vocabulary to fall back on, a measured customer is labelled; an
-- unmeasured one carries nothing.
row_of-IsRecordable :
    (db : Db) (days i : ℕ) (w : Option Measures)
    → worst db ≢ none
    → IsRecordable (assignment_of (row_of db days i w))
unfolding row_of chosen
row_of-IsRecordable db days i none h = record {
  kind = inl (refl, refl, refl, refl, refl, refl, refl);
}
row_of-IsRecordable db days i (some w) h = record { kind = inr (ground arith, refl, refl, refl) }

row_of-ident : (db : Db) (days i : ℕ) (w : Option Measures) → (row_of db days i w).customer_id ≡ i
unfolding row_of
row_of-ident db days i none = refl
row_of-ident db days i (some w) = refl

contains-insert_by :
    (x y : ℕ) (l : List ℕ) → contains x (insert_by ltb y l) ≡ (y == x || contains x l)
contains-insert_by x y [] = refl
contains-insert_by x y (z ∷ l) = ground (arith, contains-insert_by x y l)

pub contains-sort_by : (x : ℕ) (l : List ℕ) → contains x (sort_by ltb l) ≡ contains x l
unfolding sort_by
contains-sort_by x [] = refl
contains-sort_by x (y ∷ l) =
    ground (arith, contains-insert_by x y (sort_by ltb l), contains-sort_by x l)

Distinct-insert_by :
    (y : ℕ) (l : List ℕ) → contains y l ≡ false → Distinct l → Distinct (insert_by ltb y l)
Distinct-insert_by y [] h d = (refl, tt)
Distinct-insert_by y (z ∷ l) h d = ground (arith, Distinct-insert_by y l, contains-insert_by z y l)

Distinct-sort_by : (l : List ℕ) → Distinct l → Distinct (sort_by ltb l)
unfolding sort_by
Distinct-sort_by [] d = tt
Distinct-sort_by (y ∷ l) d =
    Distinct-insert_by y (sort_by ltb l) (contains-sort_by y l ∙ d.0) (Distinct-sort_by l d.1)

module _ (db : Db) (days : ℕ) where
  abbrev row_at : ℕ → Assignment
  row_at i = assignment_of (row_of db days i (window_sales db days i))

  idents-rows :
      (l : List ℕ)
      → idents (map assignment_of (map (λ i. row_of db days i (window_sales db days i)) l)) ≡ l
  idents-rows [] = refl
  idents-rows (i ∷ l) =
      ground (arith, row_of-ident db days i (window_sales db days i), idents-rows l)

  rows-IsRecordable :
      worst db ≢ none
      → (l : List ℕ)
      → All IsRecordable
          (map assignment_of (map (λ i. row_of db days i (window_sales db days i)) l))
  rows-IsRecordable h [] = tt
  rows-IsRecordable h (i ∷ l) =
      (row_of-IsRecordable db days i (window_sales db days i) h, rows-IsRecordable h l)

  -- While some live segment has a label of the vocabulary, and no customer has two rows, the assignments of
  -- the RFM rules pass the pipeline's checks whatever the sales and the bands are, and are one for each
  -- customer, in the order of the ids.
  pub rfm_output-validated :
      worst db ≢ none
      → Distinct db.customers
      → (validated (rfm_output db days) ≡ ok (rfm_output db days).assignments)
        × (idents (rfm_output db days).assignments ≡ sort_by ltb db.customers)
  unfolding rfm_output
  rfm_output-validated h d =
      let same = idents-rows (sort_by ltb db.customers) in
      (
        validated_complete (rfm_output db days) (rows-IsRecordable h (sort_by ltb db.customers))
            (rw same (Distinct-sort_by db.customers d)),
        same,
      )
