-- ===== src/Labels/Order.antt =====
-- The labels that `label_clusters` of web/services/cluster_labels.py gives to the clusters of a fit.
use mathlib.Core.List.{zip}
use retail_segmentation.Prelude.{
  ℕ, zero, suc, ◌+◌, ◌≤◌, ◌<◌, ◌≡◌, refl, Bool, true, false, some, List, [], ◌∷◌, map, length,
  get_or, ltb, ◌==◌, String, ok, range, range_from, sort_by, insert_by, length-sort_by, length-map,
  arith, All, any, Bool-cases, inl, inr, ◌||◌, ◌∙◌, ap, sym, All-mono, All-range_from,
}
use retail_segmentation.Floats.{FloatOps}
use retail_segmentation.Kmeans.Domain.{Fit, Params, members, members_of}
use retail_segmentation.Kmeans.Refill.{origin}
use retail_segmentation.Kmeans.Refill.Counting.{count}
use retail_segmentation.Kmeans.Fit.Total.{IsFinished}
use retail_segmentation.Labels.Index.{label_index, label_index-lt}
use retail_segmentation.Labels.Ranks.{
  Key, key_from, better, order_keys, least, order_key, rank_clusters, label_at, labels_by_rank,
  Labelling, label_of, label_clusters,
}

-- `c` stands in a list of cluster numbers.
abbrev pub among : ℕ → List ℕ → Bool
among c = any (λ d. d == c)

among-insert_by :
    {K : Type 0} (lt : K × ℕ → K × ℕ → Bool) (c : ℕ) (x : K × ℕ) (xs : List (K × ℕ))
    → among c (map (λ row. row.1) (insert_by lt x xs))
      ≡ (x.1 == c || among c (map (λ row. row.1) xs))
among-insert_by lt c x [] = refl
among-insert_by lt c x (y ∷ ys) = ground (arith, among-insert_by lt c x ys)

among-sort_by :
    {K : Type 0} (lt : K × ℕ → K × ℕ → Bool) (c : ℕ) (xs : List (K × ℕ))
    → among c (map (λ row. row.1) (sort_by lt xs)) ≡ among c (map (λ row. row.1) xs)
unfolding sort_by
among-sort_by lt c [] = refl
among-sort_by lt c (x ∷ xs) =
    ground (arith, among-insert_by lt c x (sort_by lt xs), among-sort_by lt c xs)

among-range_from : (c i k : ℕ) → i ≤ c → c < i + k → among c (range_from i k) ≡ true
among-range_from c i zero l u = absurd (omega arith)
among-range_from c i (suc k) l u = ground (arith, among-range_from c (suc i) k)

-- A label of the vocabulary.
abbrev pub InVocabulary : List String → String → Type 0
InVocabulary vocabulary l = (i : ℕ) × (i < length vocabulary) × (get_or vocabulary i "" ≡ l)

label_of-zip :
    (P : String → Type 0) (c : ℕ) (clusters : List ℕ) (labels : List String)
    → among c clusters ≡ true
    → length clusters ≡ length labels
    → All P labels
    → (l : String) × (label_of (zip clusters labels) c ≡ some l) × P l
unfolding zip
label_of-zip P c [] labels h w a = cc
label_of-zip P c (d ∷ clusters) [] h w a = absurd (omega arith)
label_of-zip P c (d ∷ clusters) (l ∷ labels) h w a = elim (Bool-cases (d == c)) [
  | inl here ↦ (l, rw here, a.0)
  | inr there ↦
      let (m, found, p) = label_of-zip P c clusters labels (rw there at h) (omega arith) a.1 in
      (m, rw there found, p)
]

labels_in :
    (k : ℕ) (vocabulary : List String) (i m : ℕ)
    → 2 ≤ k
    → 1 ≤ length vocabulary
    → i + m ≤ k
    → All (InVocabulary vocabulary) (map (label_at k vocabulary) (range_from i m))
labels_in k vocabulary i zero h n l = tt
labels_in k vocabulary i (suc m) h n l = (
  (
    label_index i k (length vocabulary),
    label_index-lt i k (length vocabulary) h n (omega arith),
    refl,
  ),
  labels_in k vocabulary (suc i) m h n (omega arith),
)

length-range_from : (i m : ℕ) → length (range_from i m) ≡ m
length-range_from i zero = refl
length-range_from i (suc m) = ap suc (length-range_from (suc i) m)

labels_by_rank_lem :
    (k : ℕ) (vocabulary : List String)
    → 2 ≤ k
    → 1 ≤ length vocabulary
    → labels_by_rank k vocabulary ≡ ok (map (label_at k vocabulary) (range k))
unfolding labels_by_rank
labels_by_rank_lem k [] h n = absurd (omega arith)
labels_by_rank_lem k (l ∷ vocabulary) h n = let small : ltb k 2 ≡ false = ground arith in rw small

-- With as many assignments as customers, the members of a cluster are found, and there is one where the cluster
-- is counted.
members_of_some :
    (c : ℕ) (ids clusters : List ℕ)
    → length ids ≡ length clusters
    → (found : List ℕ) × (members_of c ids clusters ≡ ok found)
      × (1 ≤ count c clusters → (first : ℕ) × (least found ≡ ok first))
unfolding members_of
members_of_some c [] [] h = ([], refl, λ n. absurd (omega arith))
members_of_some c [] (a ∷ clusters) h = absurd (omega arith)
members_of_some c (i ∷ ids) [] h = absurd (omega arith)
members_of_some c (i ∷ ids) (a ∷ clusters) h =
    let (found, e, some_first) = members_of_some c ids clusters (omega arith) in
    elim (Bool-cases (a == c)) [
      | inl here ↦ (i ∷ found, rw (e, here), λ n. (_, refl))
      | inr there ↦ (found, rw (e, there), λ n. some_first (rw there at n))
    ]

module _ (ops : FloatOps) where
  order_key_total :
      (result : Fit) (c : ℕ)
      → length result.customer_ids ≡ length result.assignments
      → 1 ≤ count c result.assignments
      → (key : Key) × (order_key ops result c ≡ ok key)
  unfolding order_key members
  order_key_total result c h n =
      let (found, e, some_first) = members_of_some c result.customer_ids result.assignments h in
      let (first, f) = some_first n in
      (key_from ops (get_or result.centroids c (origin ops)) first, rw (e, f))

  order_keys_total :
      (result : Fit) (clusters : List ℕ)
      → length result.customer_ids ≡ length result.assignments
      → All (λ c. 1 ≤ count c result.assignments) clusters
      → (rows : List (Key × ℕ)) × (order_keys ops result clusters ≡ ok rows)
        × (map (λ row. row.1) rows ≡ clusters)
  unfolding order_keys
  order_keys_total result [] h n = ([], refl, refl)
  order_keys_total result (c ∷ clusters) h n =
      let (key, k) = order_key_total result c h n.0 in
      let (rows, e, same) = order_keys_total result clusters h n.1 in
      ((key, c) ∷ rows, rw (k, e), ap (λ cs. c ∷ cs) same)

  -- With a customer in every cluster the order is found, and every cluster stands in it.
  rank_clusters_total :
      (result : Fit)
      → length result.customer_ids ≡ length result.assignments
      → All (λ c. 1 ≤ count c result.assignments) (range (length result.centroids))
      → (clusters : List ℕ) × (rank_clusters ops result ≡ ok clusters)
        × (length clusters ≡ length result.centroids)
        × All (λ c. among c clusters ≡ true) (range (length result.centroids))
  unfolding rank_clusters
  rank_clusters_total result h n =
      let k = length result.centroids in
      let (rows, e, same) = order_keys_total result (range k) h n in
      let ordered = sort_by (better ops) rows in
      (
        map (λ (row : Key × ℕ). row.1) ordered,
        rw e,
        length-map (λ (row : Key × ℕ). row.1) ordered
            ∙ length-sort_by (better ops) rows
            ∙ sym (length-map (λ (row : Key × ℕ). row.1) rows)
            ∙ ap length same
            ∙ length-range_from 0 k,
        All-range_from (λ c. among c (map (λ (row : Key × ℕ). row.1) ordered) ≡ true) 0 k
            (λ c l u.
              among-sort_by (better ops) c rows ∙ ap (among c) same ∙ among-range_from c 0 k l u),
      )

-- Of a finished fit with at least two clusters, and a vocabulary that is not empty, the labelling raises
-- nothing: every cluster has the member that its order is read from, and takes a label of the vocabulary.
pub label_clusters_total :
    (ops : FloatOps) (params : Params) (n : ℕ) (result : Fit) (vocabulary : List String)
    → IsFinished params n result
    → 2 ≤ params.k
    → 1 ≤ length vocabulary
    → (labels : Labelling) × (label_clusters ops result vocabulary ≡ ok labels)
      × All
          (λ c. (l : String) × (label_of labels c ≡ some l) × InVocabulary vocabulary l)
          (range params.k)
unfolding label_clusters
label_clusters_total ops params n result vocabulary done h v =
    let k = length result.centroids in
    let words = map (label_at k vocabulary) (range k) in
    let (clusters, ranked, width, all) =
      rank_clusters_total ops result (done.named ∙ sym done.aligned)
        (rw done.centred done.filled) in
    (
      zip clusters words,
      rw (labels_by_rank_lem k vocabulary (rw done.centred h) v, ranked),
      rw (← done.centred) (
          All-mono (λ c. among c clusters ≡ true)
            (λ c.
              (l : String) × (label_of (zip clusters words) c ≡ some l) × InVocabulary vocabulary l)
            (λ c there.
              label_of-zip (InVocabulary vocabulary) c clusters words there
                (width
                  ∙ sym (length-range_from 0 k)
                  ∙ sym (length-map (label_at k vocabulary) (range k)))
                (labels_in k vocabulary 0 k (rw done.centred h) v (omega arith)))
            (range k) all),
    )
