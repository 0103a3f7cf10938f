-- ===== src/Recommendations.antt =====
-- services/recommendations/app/rule.py: which products a customer is recommended, and why. Identifiers are numbers, a
-- moment is its second, a price is in cents; a set or a dict is the list of its keys in the order of their insertion.
pub mod Ancestry
pub mod Answers
use Prim.Native.Nat.{max}
use retail_segmentation.Prelude.{
  ℕ, zero, suc, ◌+◌, ◌-◌, ◌*◌, ◌/◌, Bool, true, false, not, ◌&&◌, ◌||◌, Option, none, some, List,
  [], ◌∷◌, ◌++◌, map, length, take, keep, any, find_first, sort_by, if◌then◌else◌, ltb, leb, ◌==◌,
  Result, ok, err, ◌>>=◌,
}

pub data LabelState : Type 0 where
  assigned : LabelState
  unassigned_result : LabelState
  other_state : LabelState

pub record Label : Type 0 where
  pub state : LabelState
  pub label_code : Option ℕ
  pub run_id : Option ℕ

pub record Line : Type 0 where
  pub transaction_id : ℕ
  pub store_id : ℕ
  pub product_id : ℕ
  pub category_id : ℕ
  pub quantity : ℕ
  pub unit_price : ℕ

pub record Stocked : Type 0 where
  pub product_id : ℕ
  pub category_id : ℕ
  pub quantity_on_hand : ℕ

abbrev pub Parents : Type 0
Parents = List (ℕ × Option ℕ)

-- What the rule reads of the published views.
pub record Reads : Type 0 where
  pub current_label : ℕ → Label
  pub purchase_lines : ℕ → ℕ → ℕ → List Line
  pub stocked_products : ℕ → List Stocked
  pub segment_buyers : ℕ → ℕ → ℕ → ℕ → List (ℕ × ℕ)
  pub interest_categories : ℕ → List ℕ
  pub category_parents : Parents

abbrev pub member : ℕ → List ℕ → Bool
member x xs = any (λ y. y == x) xs

-- A set of numbers, built from the right.
abbrev pub unique : List ℕ → List ℕ
unique [] = []
unique (x ∷ xs) = let rest = unique xs in if member x rest then rest else x ∷ rest

abbrev pub total : (Line → ℕ) → List Line → ℕ
total f [] = 0
total f (line ∷ lines) = f line + total f lines

abbrev pub line_spend : Line → ℕ
line_spend line = line.quantity * line.unit_price

-- `len(purchases[s])`: the transactions of the lines.
abbrev pub purchases : List Line → ℕ
purchases lines = length (unique (map (λ line. line.transaction_id) lines))

-- The order of the tuples `(-a, -b, ..., id)`.
pub before : List ℕ → ℕ → List ℕ → ℕ → Bool
before [] i bs j = ltb i j
before (a ∷ more) i [] j = ltb i j
before (a ∷ more) i (b ∷ bs) j = let rest = before more i bs j in ltb b a || ((a == b) && rest)

abbrev pub of_store : List Line → ℕ → List Line
of_store lines s = keep (λ line. line.store_id == s) lines

abbrev pub store_key : List Line → ℕ → List ℕ
store_key lines s = purchases (of_store lines s) ∷ total line_spend (of_store lines s) ∷ []

-- `min(xs, key=…)` from the first candidate.
pub least_store : List Line → ℕ → List ℕ → ℕ
unfolding before
least_store lines best [] = best
least_store lines best (s ∷ ss) =
    least_store lines (if before (store_key lines s) s (store_key lines best) best then s else best)
      ss

abbrev first_store : List Line → List ℕ → Option ℕ
first_store lines [] = none
first_store lines (s ∷ ss) = some (least_store lines s ss)

unfoldable pub dominant_store : List Line → Option ℕ
unfolding least_store
dominant_store lines = first_store lines (unique (map (λ line. line.store_id) lines))

abbrev pub in_category : List Line → ℕ → List Line
in_category lines c = keep (λ line. line.category_id == c) lines

abbrev pub category_key : List Line → ℕ → List ℕ
category_key lines c =
    let own = in_category lines c in
    purchases own ∷ total (λ line. line.quantity) own ∷ total line_spend own ∷ []

abbrev pub category_before : List Line → ℕ → ℕ → Bool
category_before lines c d = before (category_key lines c) c (category_key lines d) d

-- The dict of the `limit` favourite categories and their purchases.
unfoldable pub top_categories : List Line → ℕ → List (ℕ × ℕ)
unfolding before sort_by
top_categories lines limit =
    map (λ c. (c, purchases (in_category lines c)))
      (take limit (sort_by (category_before lines) (unique (map (λ line. line.category_id) lines))))

unfoldable pub parent_of : Parents → ℕ → Option ℕ
parent_of [] c = none
parent_of ((k, p) ∷ parents) c = let rest = parent_of parents c in if k == c then p else rest

abbrev pub fresh : List ℕ → Option ℕ → Option ℕ
fresh seen none = none
fresh seen (some p) = if member p seen then none else some p

-- The condition of the loop: the parent of the chain's last category, when there is one that the chain does not hold.
abbrev pub above : Parents → ℕ → List ℕ → Option ℕ
above parents last seen = fresh seen (parent_of parents last)

-- The loop, with fuel, from its last category and the ones before it.
unfoldable pub climb : ℕ → Parents → ℕ → List ℕ → List ℕ
unfolding parent_of
climb zero parents last seen = []
climb (suc n) parents last seen = elim (above parents last (last ∷ seen)) [
  | none ↦ []
  | some p ↦ p ∷ climb n parents p (last ∷ seen)
]

-- The category and every one above it: a chain follows each entry of `parents` at most once.
unfoldable pub lineage : ℕ → Parents → List ℕ
unfolding climb
lineage category_id parents = category_id ∷ climb (length parents) parents category_id []

abbrev pub nearest : List ℕ → List ℕ → Option ℕ
nearest chain matches = find_first (λ category. member category matches) chain

pub data Error : Type 0 where
  division_by_zero : Error

-- In ten-thousandths, rounded half up.
unfoldable pub share : ℕ → ℕ → Result Error ℕ
share history zero = err division_by_zero
share history (suc t) = ok ((2 * 10000 * history + suc t) / (2 * suc t))

pub data Reason : Type 0 where
  segment : (segment_buyers : ℕ) → Reason
  preferred_category : (category_id : ℕ) → Reason
  purchase_history : (category_id : ℕ) (share_of : ℕ) → Reason

pub record Item : Type 0 where
  pub product_id : ℕ
  pub category_id : ℕ
  pub quantity_on_hand : ℕ
  pub reasons : List Reason

-- What `rank` is told of the customer.
pub record Profile : Type 0 where
  pub preferred : List ℕ
  pub category_purchases : List (ℕ × ℕ)
  pub parents : Parents
  pub total_purchases : ℕ
  pub purchased : List ℕ
  pub buyers : List (ℕ × ℕ)

-- `counts.get(k, 0)`
abbrev pub count_of : List (ℕ × ℕ) → ℕ → ℕ
count_of [] k = 0
count_of ((j, n) ∷ counts) k = let rest = count_of counts k in if j == k then n else rest

-- `{c for c, count in category_purchases.items() if count >= 1}`
abbrev pub bought : List (ℕ × ℕ) → List ℕ
bought counts = map (λ entry. entry.0) (keep (λ entry. leb 1 entry.1) counts)

abbrev pub by_segment : ℕ → List Reason
by_segment buyers = if leb 1 buyers then segment buyers ∷ [] else []

abbrev pub by_interest : Option ℕ → List Reason
by_interest none = []
by_interest (some c) = preferred_category c ∷ []

abbrev pub history_of : Profile → Option ℕ → ℕ
history_of profile none = 0
history_of profile (some c) = count_of profile.category_purchases c

pub by_history : Profile → Option ℕ → Result Error (List Reason)
unfolding share
by_history profile none = ok []
by_history profile (some c) = do
  s ← share (count_of profile.category_purchases c) profile.total_purchases
  ok (purchase_history c s ∷ [])

-- The key's counts with the item they order.
pub record Entry : Type 0 where
  pub key : List ℕ
  pub item : Item

abbrev pub entry_before : Entry → Entry → Bool
entry_before a b = before a.key a.item.product_id b.key b.item.product_id

abbrev pub is_excluded : Profile → Stocked → Bool
is_excluded profile product =
    leb product.quantity_on_hand 0 || member product.product_id profile.purchased

abbrev entry_of : Stocked → ℕ → ℕ → List Reason → Option Entry
entry_of product segment_buyers history [] = none
entry_of product segment_buyers history (r ∷ rs) = some (record {
  key = length (r ∷ rs) ∷ segment_buyers ∷ history ∷ [];
  item = record {
    product_id = product.product_id;
    category_id = product.category_id;
    quantity_on_hand = product.quantity_on_hand;
    reasons = r ∷ rs;
  };
})

-- The body of the loop over the stock, for a product that is neither sold out nor bought.
pub assess : Profile → Stocked → Result Error (Option Entry)
unfolding lineage by_history
assess profile product =
    let segment_buyers = count_of profile.buyers product.product_id in
    let chain = lineage product.category_id profile.parents in
    let history_category = nearest chain (bought profile.category_purchases) in
    by_history profile history_category >>= λ by_purchases. ok (
      entry_of product segment_buyers (history_of profile history_category) (
        by_segment segment_buyers ++ by_interest (nearest chain profile.preferred) ++ by_purchases))

abbrev pub push : Option Entry → List Entry → List Entry
push none entries = entries
push (some e) entries = e ∷ entries

pub assess_all : Profile → List Stocked → Result Error (List Entry)
unfolding assess
assess_all profile [] = ok []
assess_all profile (product ∷ stocked) =
    let rest = assess_all profile stocked in
    if is_excluded profile product
    then rest
    else (assess profile product >>= λ e. rest >>= λ entries. ok (push e entries))

unfoldable pub rank : Profile → List Stocked → ℕ → Result Error (List Item)
unfolding assess_all before sort_by
rank profile stocked limit = assess_all profile stocked >>= λ entries.
    ok (map (λ e. e.item) (take limit (sort_by entry_before entries)))

pub data Status : Type 0 where
  unassigned : Status
  no_open_assignment : Status
  no_usual_store : Status
  none_match : Status
  recommended : Status

pub record Answer : Type 0 where
  pub customer_id : ℕ
  pub status : Status
  pub window_start : ℕ
  pub window_end : ℕ
  pub label_code : Option ℕ
  pub run_id : Option ℕ
  pub usual_store_id : Option ℕ
  pub items : List Item

abbrev pub window_seconds : ℕ
window_seconds = 180 * 86400

abbrev pub status_of : List Item → Status
status_of [] = none_match
status_of (i ∷ items) = recommended

abbrev pub unlabelled : LabelState → Status
unlabelled assigned = no_open_assignment
unlabelled unassigned_result = unassigned
unlabelled other_state = no_open_assignment

-- The code, when the customer has an open segment.
abbrev pub segment_of : Label → Option ℕ
segment_of label = elim label.state [
  | assigned ↦ label.label_code
  | unassigned_result ↦ none
  | other_state ↦ none
]

abbrev pub profile_of : Reads → ℕ → ℕ → ℕ → ℕ → List Line → Profile
unfolding top_categories
profile_of reads customer_id since until code lines = record {
  preferred = reads.interest_categories customer_id;
  category_purchases = top_categories lines 3;
  parents = reads.category_parents;
  total_purchases = purchases lines;
  purchased = unique (map (λ line. line.product_id) lines);
  buyers = reads.segment_buyers code customer_id since until;
}

abbrev pub answer : ℕ → ℕ → Status → Option ℕ → Option ℕ → Option ℕ → List Item → Answer
answer customer_id until status code run_id store items = record {
  customer_id = customer_id;
  status = status;
  window_start = until - window_seconds;
  window_end = until;
  label_code = code;
  run_id = run_id;
  usual_store_id = store;
  items = items;
}

pub recommend_from : Reads → ℕ → ℕ → ℕ → Label → ℕ → List Line → Option ℕ → Result Error Answer
unfolding rank profile_of
recommend_from reads customer_id until limit label code lines none =
    ok (answer customer_id until no_usual_store (some code) label.run_id none [])
recommend_from reads customer_id until limit label code lines (some store) =
    rank (profile_of reads customer_id (until - window_seconds) until code lines)
      (reads.stocked_products store) limit
    >>= λ items.
        ok (answer customer_id until (status_of items) (some code) label.run_id (some store) items)

pub recommend_for : Reads → ℕ → ℕ → ℕ → Label → Option ℕ → Result Error Answer
unfolding recommend_from dominant_store
recommend_for reads customer_id until limit label none =
    ok (answer customer_id until (unlabelled label.state) none none none [])
recommend_for reads customer_id until limit label (some code) =
    let lines = reads.purchase_lines customer_id (until - window_seconds) until in
    recommend_from reads customer_id until limit label code lines (dominant_store lines)

unfoldable pub recommend : Reads → ℕ → ℕ → ℕ → Result Error Answer
unfolding recommend_for
recommend reads customer_id as_of limit =
    let label = reads.current_label customer_id in
    recommend_for reads customer_id as_of limit label (segment_of label)
