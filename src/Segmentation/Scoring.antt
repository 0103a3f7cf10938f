-- ===== src/Segmentation/Scoring.antt =====
-- The RFM_RULES decision: the statement `_SCORE_AND_MATCH` and `score_rfm_rules` of
-- web/db/segments.py, query by query, and `rfm_rules_adapter` of web/services/segmentation.py.
pub mod Quintiles
pub mod Labelled
use Prim.Native.Nat.{max}
use mathlib.Core.List.{foldr, head?}
use retail_segmentation.Prelude.{
  ℕ, zero, suc, ◌+◌, ◌-◌, ◌*◌, ◌/◌, ◌%◌, ◌≤◌, ◌<◌, ◌≡◌, refl, Bool, true, false, ◌&&◌, ◌||◌, not,
  Option, none, some, List, [], ◌∷◌, ◌++◌, map, arith, ◌==◌, if◌then◌else◌, String, str_eq, any,
  leb, ltb, Result, ok, err, length, keep, count_if, find_first, sort_by, pos,
}
use retail_segmentation.Segmentation.Domain.{
  Assignment, Fields, Json, Error, is_some, MethodOutput, MethodAdapter,
}
use retail_segmentation.Segmentation.Store.{Db, Sale, Rule, Segment, Label, in_window}

abbrev pub quintiles : ℕ
quintiles = 5

-- A row of `window_sales`.
pub record Measures : Type 0 where
  pub last_purchase : ℕ
  pub frequency : ℕ
  pub monetary : ℕ

abbrev pub sales_of : Db → ℕ → ℕ → List Sale
sales_of db days i = keep (λ s. s.customer_id == i && in_window db days s) db.sales

grouped : List Sale → Option Measures
grouped [] = none
grouped (s ∷ rest) = some (record {
  last_purchase = foldr (λ t latest. max t.occurred_at latest) 0 (s ∷ rest);
  frequency = length (s ∷ rest);
  monetary = foldr (λ t sum. t.total + sum) 0 (s ∷ rest);
})

-- `max(occurred_at)`, `count(*)` and `sum(total)` of a customer's sales in the window, if there are any.
pub window_sales : Db → ℕ → ℕ → Option Measures
unfolding grouped
window_sales db days i = grouped (sales_of db days i)

-- Every row of `window_sales`: a sale names a customer.
all_measures : Db → ℕ → List ℕ → List Measures
all_measures db days [] = []
all_measures db days (i ∷ rest) =
    let others = all_measures db days rest in
    elim (window_sales db days i) [ some m ↦ m ∷ others | none ↦ others ]

-- `SELECT DISTINCT`
pub distinct : List ℕ → List ℕ
distinct [] = []
distinct (x ∷ xs) = x ∷ keep (λ y. not (y == x)) (distinct xs)

-- `ntile(n)` of the row at position `i` of `total`: the first `total % n` buckets hold one more.
unfoldable pub ntile : ℕ → ℕ → ℕ → ℕ
ntile n total i =
    let size = total / n in
    let larger = total % n in
    if ltb i (larger * (size + 1))
    then i / (size + 1) + 1
    else (i - larger * (size + 1)) / size + larger + 1

-- `%s + 1 - ntile(%s) OVER (ORDER BY measure DESC)` over the distinct values: the position of a value
-- is the number of distinct values above it.
unfoldable pub score : List ℕ → ℕ → ℕ
unfolding ntile
score values v = quintiles + 1 - ntile quintiles (length values) (count_if (λ u. ltb v u) values)

pub record Triple : Type 0 where
  pub r : ℕ
  pub f : ℕ
  pub m : ℕ

-- A row of `scored`.
pub scored : Db → ℕ → Measures → Triple
unfolding all_measures distinct score
scored db days w =
    let rows = all_measures db days db.customers in
    record {
      r = score (distinct (map (λ x. x.last_purchase) rows)) w.last_purchase;
      f = score (distinct (map (λ x. x.frequency) rows)) w.frequency;
      m = score (distinct (map (λ x. x.monetary) rows)) w.monetary;
    }

ended : ℕ → Option ℕ → Bool
ended today none = false
ended today (some to) = not (leb today to)

-- The segment is valid on the current date.
pub is_live : Db → Segment → Bool
unfolding ended
is_live db seg = leb seg.valid_from db.today && not (ended db.today seg.valid_to)

-- The band of the segment's rule holds the triple.
pub in_band : Db → Triple → Segment → Bool
in_band db t seg =
    any
      (λ rule.
        rule.rule_id == seg.rule_id
        && (leb rule.r_min t.r && leb t.r rule.r_max)
        && (leb rule.f_min t.f && leb t.f rule.f_max)
        && (leb rule.m_min t.m && leb t.m rule.m_max))
      db.rules

-- The first LATERAL join: the lowest `segment_id` whose band holds the triple.
pub band_match : Db → Triple → Option Segment
unfolding in_band is_live
band_match db t = head? (
    sort_by (λ x y. ltb x.segment_id y.segment_id)
      (keep (λ seg. in_band db t seg && is_live db seg) db.segments))

abbrev ordinal : Db → Segment → Option Label
ordinal db seg = find_first (λ l. str_eq l.label_code seg.label_code) db.labels

-- `JOIN segment_label`
ranked : Db → List Segment → List (ℕ × Segment)
ranked db [] = []
ranked db (seg ∷ rest) =
    let others = ranked db rest in
    elim (ordinal db seg) [ some l ↦ (l.ordinal_position, seg) ∷ others | none ↦ others ]

-- The second LATERAL join: the highest `ordinal_position`, then the lowest `segment_id`.
unfoldable pub worst : Db → Option Segment
unfolding ranked is_live
worst db =
    let order = λ (x : ℕ × Segment) (y : ℕ × Segment).
      ltb y.0 x.0 || (x.0 == y.0 && ltb x.1.segment_id y.1.segment_id) in
    elim (head? (sort_by order (ranked db (keep (is_live db) db.segments)))) [
      | some p ↦ some p.1
      | none ↦ none
    ]

pub record ScoredCustomer : Type 0 where
  pub customer_id : ℕ
  pub last_purchase_at : Option ℕ
  pub frequency : Option ℕ
  pub monetary : Option ℕ
  pub r_score : Option ℕ
  pub f_score : Option ℕ
  pub m_score : Option ℕ
  pub segment_id : Option ℕ
  pub label_code : Option String
  pub via_fallback : Bool

abbrev id_of : Option Segment → Option ℕ
id_of none = none
id_of (some seg) = some seg.segment_id

abbrev label_of : Option Segment → Option String
label_of none = none
label_of (some seg) = some seg.label_code

-- `COALESCE(bm.…, fb.…)`, the fallback being joined only when no band matched.
chosen : Option Segment → Option Segment → Option Segment × Bool
chosen (some seg) fb = (some seg, false)
chosen none (some seg) = (some seg, true)
chosen none none = (none, false)

row_of : Db → ℕ → ℕ → Option Measures → ScoredCustomer
unfolding scored band_match worst chosen
row_of db days i none = record {
  customer_id = i;
  last_purchase_at = none;
  frequency = none;
  monetary = none;
  r_score = none;
  f_score = none;
  m_score = none;
  segment_id = none;
  label_code = none;
  via_fallback = false;
}
row_of db days i (some w) =
    let t = scored db days w in
    let (seg, via) = chosen (band_match db t) (worst db) in
    record {
      customer_id = i;
      last_purchase_at = some w.last_purchase;
      frequency = some w.frequency;
      monetary = some w.monetary;
      r_score = some t.r;
      f_score = some t.f;
      m_score = some t.m;
      segment_id = id_of seg;
      label_code = label_of seg;
      via_fallback = via;
    }

-- One row for every customer, ordered by id.
unfoldable pub score_rfm_rules : Db → ℕ → List ScoredCustomer
unfolding row_of window_sales
score_rfm_rules db days =
    map (λ i. row_of db days i (window_sales db days i)) (sort_by ltb db.customers)

abbrev assignment_of : ScoredCustomer → Assignment
assignment_of row = record {
  customer_id = row.customer_id;
  label_code = row.label_code;
  segment_id = row.segment_id;
  last_purchase_at = row.last_purchase_at;
  frequency = row.frequency;
  monetary = row.monetary;
  r_score = row.r_score;
  f_score = row.f_score;
  m_score = row.m_score;
  via_fallback = row.via_fallback;
}

unfoldable pub rfm_output : Db → ℕ → MethodOutput
unfolding score_rfm_rules
rfm_output db days = record {
  assignments = map assignment_of (score_rfm_rules db days);
  parameters =
      Fields.field "window_days" (Json.integer (pos days))
        (Fields.field "quintiles" (Json.integer (pos quintiles)) Fields.end);
}

unfoldable pub rfm_rules_adapter : Db → ℕ → Result Error MethodOutput
unfolding rfm_output
rfm_rules_adapter db days = ok (rfm_output db days)
