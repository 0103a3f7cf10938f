-- ===== src/Recommendations/Answers.antt =====
-- What `rank` and `recommend` of services/recommendations/app/rule.py answer.
use retail_segmentation.Prelude.{
  ℕ, suc, ◌+◌, ◌-◌, ◌≢◌, ◌*◌, ◌/◌, ◌≤◌, ◌≡◌, refl, Bool, true, false, ◌⊎◌, Option, none, some, List,
  [], ◌∷◌, ◌++◌, length, map, take, any, ◌==◌, arith, Bool-cases, Option-cases, inl, inr, ok, All,
  All-take, All-sort_by, length-take-le, length-map, sort_by,
}
use retail_segmentation.Recommendations.{
  Reads, Line, Stocked, Item, Entry, Profile, Answer, Status, Label, LabelState, Reason, assigned,
  unassigned_result, other_state, none_match, no_usual_store, unlabelled, recommended, member,
  unique, purchases, share, by_history, assess, assess_all, is_excluded, push, entry_before,
  entry_of, rank, answer, status_of, profile_of, recommend_from, recommend_for, recommend,
  dominant_store, segment_of, purchase_history, by_segment, by_interest, count_of, nearest, lineage,
  bought, history_of, window_seconds,
}

-- A product that may be recommended: in stock, not bought in the window, with at least one reason.
pub record IsRelevant (profile : Profile) (item : Item) : Type 0 where
  pub in_stock : 1 ≤ item.quantity_on_hand
  pub is_new : member item.product_id profile.purchased ≡ false
  pub has_reason : 1 ≤ length item.reasons

by_history_lem :
    (profile : Profile) (t : ℕ) (o : Option ℕ)
    → profile.total_purchases ≡ suc t
    → (reasons : List Reason) × (by_history profile o ≡ ok reasons)
unfolding by_history share
by_history_lem profile t none positive = ([], refl)
by_history_lem profile t (some c) positive =
    let s = (2 * 10000 * count_of profile.category_purchases c + suc t) / (2 * suc t) in
    (purchase_history c s ∷ [], rw positive refl)

push-IsRelevant :
    (profile : Profile) (product : Stocked) (buyers history : ℕ) (reasons : List Reason)
    (entries : List Entry)
    → is_excluded profile product ≡ false
    → All (λ e. IsRelevant profile e.item) entries
    → All (λ e. IsRelevant profile e.item) (push (entry_of product buyers history reasons) entries)
push-IsRelevant profile product buyers history [] entries included rest = rest
push-IsRelevant profile product buyers history (r ∷ rs) entries included rest =
    (record { in_stock = ground arith; is_new = ground arith; has_reason = ground arith }, rest)

assess_all_lem :
    (profile : Profile) (t : ℕ) (stocked : List Stocked)
    → profile.total_purchases ≡ suc t
    → (entries : List Entry) × (assess_all profile stocked ≡ ok entries)
      × All (λ e. IsRelevant profile e.item) entries
unfolding assess_all assess
assess_all_lem profile t [] positive = ([], refl, tt)
assess_all_lem profile t (product ∷ stocked) positive =
    let (entries, done, relevant) = assess_all_lem profile t stocked positive in
    let o =
      nearest (lineage product.category_id profile.parents) (bought profile.category_purchases) in
    let (reasons, counted) = by_history_lem profile t o positive in
    elim (Bool-cases (is_excluded profile product)) [
      | inl out ↦ (entries, rw out done, relevant)
      | inr kept ↦
          let buyers = count_of profile.buyers product.product_id in
          let liked =
            by_interest (nearest (lineage product.category_id profile.parents) profile.preferred) in
          let e =
            entry_of product buyers (history_of profile o)
              (by_segment buyers ++ liked ++ reasons) in
          (
            push e entries,
            rw (kept, counted, done) refl,
            push-IsRelevant profile product buyers (history_of profile o)
                (by_segment buyers ++ liked ++ reasons) entries kept relevant,
          )
    ]

All-map-item :
    (profile : Profile) (entries : List Entry)
    → All (λ e. IsRelevant profile e.item) entries
    → All (IsRelevant profile) (map (λ e. e.item) entries)
All-map-item profile [] h = tt
All-map-item profile (e ∷ entries) h = (h.0, All-map-item profile entries h.1)

-- For a customer with purchases, ranking any stock raises nothing and returns at most `limit` products, each
-- in stock, not bought by the customer in the window, and with a reason.
pub rank-IsRelevant :
    (profile : Profile) (t : ℕ) (stocked : List Stocked) (limit : ℕ)
    → profile.total_purchases ≡ suc t
    → (items : List Item) × (rank profile stocked limit ≡ ok items)
      × All (IsRelevant profile) items
      × (length items ≤ limit)
unfolding rank
rank-IsRelevant profile t stocked limit positive =
    let (entries, done, relevant) = assess_all_lem profile t stocked positive in
    let best = take limit (sort_by entry_before entries) in
    (
      map (λ e. e.item) best,
      rw done refl,
      All-map-item profile best (
          All-take (λ e. IsRelevant profile e.item) limit (sort_by entry_before entries)
            (All-sort_by entry_before (λ e. IsRelevant profile e.item) entries relevant)),
      rw (length-map (λ e. e.item) best) (length-take-le limit (sort_by entry_before entries)),
    )

any-length : (p : ℕ → Bool) (xs : List ℕ) → any p xs ≡ true → 1 ≤ length xs
any-length p [] found = ground arith
any-length p (x ∷ xs) found = ground arith

length-unique : (x : ℕ) (xs : List ℕ) → (t : ℕ) × (length (unique (x ∷ xs)) ≡ suc t)
length-unique x xs = elim (Bool-cases (member x (unique xs))) [
  | inl seen ↦
      let some_left = any-length (λ y. y == x) (unique xs) seen in
      (length (unique xs) - 1, rw seen (omega arith))
  | inr new ↦ (length (unique xs), rw new refl)
]

dominant_store-purchases :
    (lines : List Line) (s : ℕ)
    → dominant_store lines ≡ some s
    → (t : ℕ) × (purchases lines ≡ suc t)
unfolding dominant_store
dominant_store-purchases [] s found = ground arith
dominant_store-purchases (line ∷ lines) s found =
    length-unique line.transaction_id (map (λ l. l.transaction_id) lines)

-- Products are recommended exactly when the status says so, and never more than the limit.
pub record IsCoherent (limit : ℕ) (a : Answer) : Type 0 where
  pub within : length a.items ≤ limit
  pub says :
      (a.items ≡ []) × (a.status ≢ recommended) ⊎ (1 ≤ length a.items) × (a.status ≡ recommended)

nothing-IsCoherent :
    (customer_id until limit : ℕ) (status : Status) (code run_id store : Option ℕ)
    → status ≢ recommended
    → IsCoherent limit (answer customer_id until status code run_id store [])
nothing-IsCoherent customer_id until limit status code run_id store other = record {
  within = omega arith;
  says = inl (refl, other);
}

some-IsCoherent :
    (customer_id until limit : ℕ) (code run_id store : Option ℕ) (items : List Item)
    → length items ≤ limit
    → IsCoherent limit (answer customer_id until (status_of items) code run_id store items)
some-IsCoherent customer_id until limit code run_id store [] few =
    nothing-IsCoherent customer_id until limit none_match code run_id store (ground arith)
some-IsCoherent customer_id until limit code run_id store (i ∷ items) few = record {
  within = few;
  says = inr (ground arith, refl);
}

recommend_from-IsCoherent :
    (reads : Reads) (customer_id until limit : ℕ) (label : Label) (code : ℕ) (lines : List Line)
    → (a : Answer) × (recommend_from reads customer_id until limit label code lines
          (dominant_store lines)
        ≡ ok a)
      × IsCoherent limit a
unfolding recommend_from
recommend_from-IsCoherent reads customer_id until limit label code lines =
    elim (Option-cases (dominant_store lines)) [
      | inl missing ↦ (
        answer customer_id until no_usual_store (some code) label.run_id none [],
        rw missing refl,
        nothing-IsCoherent customer_id until limit no_usual_store (some code) label.run_id none
            (ground arith),
      )
      | inr (store, usual) ↦
          let (t, positive) = dominant_store-purchases lines store usual in
          let profile = profile_of reads customer_id (until - window_seconds) until code lines in
          let (items, done, relevant, few) =
            rank-IsRelevant profile t (reads.stocked_products store) limit positive in
          (
            answer customer_id until (status_of items) (some code) label.run_id (some store) items,
            rw (usual, done) refl,
            some-IsCoherent customer_id until limit (some code) label.run_id (some store) items few,
          )
    ]

recommend_for-IsCoherent :
    (reads : Reads) (customer_id until limit : ℕ) (label : Label) (code : Option ℕ)
    → (a : Answer) × (recommend_for reads customer_id until limit label code ≡ ok a)
      × IsCoherent limit a
unfolding recommend_for
recommend_for-IsCoherent reads customer_id until limit label none = (
  answer customer_id until (unlabelled label.state) none none none [],
  refl,
  nothing-IsCoherent customer_id until limit (unlabelled label.state) none none none
      (other label.state),
)
  where
    other : (s : LabelState) → unlabelled s ≢ recommended
    other assigned = ground arith
    other unassigned_result = ground arith
    other other_state = ground arith
recommend_for-IsCoherent reads customer_id until limit label (some code) =
    recommend_from-IsCoherent reads customer_id until limit label code
      (reads.purchase_lines customer_id (until - window_seconds) until)

-- For every customer, moment and stock the recommendation raises nothing; it holds at most `limit` products,
-- and its status is `recommended` exactly when it holds one.
pub recommend-IsCoherent :
    (reads : Reads) (customer_id as_of limit : ℕ)
    → (a : Answer) × (recommend reads customer_id as_of limit ≡ ok a) × IsCoherent limit a
unfolding recommend
recommend-IsCoherent reads customer_id as_of limit =
    let label = reads.current_label customer_id in
    recommend_for-IsCoherent reads customer_id as_of limit label (segment_of label)
