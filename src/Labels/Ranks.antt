-- ===== src/Labels/Ranks.antt =====
-- The order of the clusters and their labels, web/services/cluster_labels.py.
use Prim.Native.Nat.{min}
use mathlib.Core.List.{foldl, zip}
use retail_segmentation.Prelude.{
  ℕ, Bool, true, false, Option, none, some, List, [], ◌∷◌, map, length, get_or, if◌then◌else◌, ltb,
  ◌==◌, String, str_eq, Result, ok, err, ◌>>=◌, ◌>>◌, raise_if, range, sort_by, count_if, keep,
}
use retail_segmentation.Floats.{Float, FloatOps}
use retail_segmentation.Kmeans.Domain as Kmeans
use retail_segmentation.Kmeans.Domain.{Fit, Point, members}
use retail_segmentation.Kmeans.Refill.{origin}
use retail_segmentation.Labels.Index.{label_index}

-- `VocabularySizeMismatch`, at either of its two places; the ValueError of `min` of no members, and those of a
-- `zip` with `strict=True`; and the KeyError of a cluster without a label.
pub data Error : Type 0 where
  too_few_clusters empty_vocabulary : Error
  no_members unequal_lengths no_label : Error

-- The key that clusters are ordered by, in ascending order.
pub record Key : Type 0 where
  pub sum : Float
  pub recency : Float
  pub frequency : Float
  pub monetary : Float
  pub first_member : ℕ

-- `min`, which raises for no members.
abbrev pub least : List ℕ → Result Error ℕ
least [] = err no_members
least (i ∷ ids) = ok (foldl min i ids)

-- `result.members(cluster)`, whose only error is the ValueError of its `zip`.
abbrev pub of_cluster : Result Kmeans.Error (List ℕ) → Result Error (List ℕ)
of_cluster (ok ids) = ok ids
of_cluster (err e) = err unequal_lengths

module _ (ops : FloatOps) where
  -- Tuples compare by the first place at which they differ.
  abbrev by_place : Float → Float → Bool → Bool
  by_place a b rest = if ops.eq a b then rest else ops.lt a b

  pub key_lt : Key → Key → Bool
  key_lt a b = by_place a.sum b.sum (
      by_place a.recency b.recency (
        by_place a.frequency b.frequency
          (by_place a.monetary b.monetary (ltb a.first_member b.first_member))))

  abbrev pub key_from : Point → ℕ → Key
  key_from (recency, frequency, monetary) first = record {
    sum = ops.neg (ops.fsum (recency ∷ frequency ∷ monetary ∷ []));
    recency = ops.neg recency;
    frequency = ops.neg frequency;
    monetary = ops.neg monetary;
    first_member = first;
  }

  unfoldable pub order_key : Fit → ℕ → Result Error Key
  order_key result cluster = do
    ids ← of_cluster (members result cluster)
    first ← least ids
    ok (key_from (get_or result.centroids cluster (origin ops)) first)

  -- `sorted` computes the key of every cluster before it compares any two.
  unfoldable pub order_keys : Fit → List ℕ → Result Error (List (Key × ℕ))
  unfolding order_key
  order_keys result [] = ok []
  order_keys result (cluster ∷ clusters) = do
    key ← order_key result cluster
    rest ← order_keys result clusters
    ok ((key, cluster) ∷ rest)

  abbrev pub better : Key × ℕ → Key × ℕ → Bool
  better a b = key_lt a.0 b.0

  -- The numbers of the clusters, best first.
  unfoldable pub rank_clusters : Fit → Result Error (List ℕ)
  unfolding key_lt order_keys
  rank_clusters result = order_keys result (range (length result.centroids)) >>= λ rows.
      ok (map (λ row. row.1) (sort_by better rows))

abbrev pub is_empty : List String → Bool
is_empty [] = true
is_empty (_ ∷ _) = false

unfoldable pub check_vocabulary_size : ℕ → List String → Result Error Unit
check_vocabulary_size k vocabulary =
    raise_if (ltb k 2) too_few_clusters >> raise_if (is_empty vocabulary) empty_vocabulary

abbrev pub label_at : ℕ → List String → ℕ → String
label_at k vocabulary rank = get_or vocabulary (label_index rank k (length vocabulary)) ""

unfoldable pub labels_by_rank : ℕ → List String → Result Error (List String)
unfolding check_vocabulary_size
labels_by_rank k vocabulary =
    check_vocabulary_size k vocabulary >>= λ _. ok (map (label_at k vocabulary) (range k))

-- A dict as its pairs, in the order of insertion; the keys here differ.
abbrev pub Labelling : Type 0
Labelling = List (ℕ × String)

abbrev pub label_of : Labelling → ℕ → Option String
label_of [] c = none
label_of ((d, l) ∷ rest) c = if d == c then some l else label_of rest c

module _ (ops : FloatOps) where
  unfoldable pub label_clusters : Fit → List String → Result Error Labelling
  unfolding labels_by_rank rank_clusters
  label_clusters result vocabulary =
      labels_by_rank (length result.centroids) vocabulary >>= λ labels.
      rank_clusters ops result >>= λ clusters. ok (zip clusters labels)

-- `Counter(by_rank)[label]`
abbrev pub uses : List String → String → ℕ
uses by_rank label = count_if (λ l. str_eq l label) by_rank

-- What a run records of its pairing.
pub record Mapping : Type 0 where
  pub rule : String
  pub vocabulary_size : ℕ
  pub labels_by_rank : List String
  pub clusters_per_label : List (String × ℕ)
  pub shared_labels : List String
  pub labels_without_cluster : List String

unfoldable pub describe_mapping : ℕ → List String → Result Error Mapping
unfolding labels_by_rank
describe_mapping k vocabulary = labels_by_rank k vocabulary >>= λ by_rank. ok (record {
  rule = "rank_proportional_endpoints_anchored";
  vocabulary_size = length vocabulary;
  labels_by_rank = by_rank;
  clusters_per_label = map (λ l. (l, uses by_rank l)) vocabulary;
  shared_labels = keep (λ l. ltb 1 (uses by_rank l)) vocabulary;
  labels_without_cluster = keep (λ l. uses by_rank l == 0) vocabulary;
})

-- `labels[cluster]`
abbrev known_label : Option String → Result Error String
known_label none = err no_label
known_label (some l) = ok l

-- The dict of the comprehension over a `zip` with `strict=True`.
unfoldable pub customer_labels : Labelling → List ℕ → List ℕ → Result Error Labelling
customer_labels labels [] [] = ok []
customer_labels labels [] (c ∷ clusters) = err unequal_lengths
customer_labels labels (i ∷ ids) [] = err unequal_lengths
customer_labels labels (i ∷ ids) (c ∷ clusters) = do
  l ← known_label (label_of labels c)
  rest ← customer_labels labels ids clusters
  ok ((i, l) ∷ rest)

module _ (ops : FloatOps) where
  -- The label of each customer, by the label of the cluster that they are in.
  unfoldable pub label_pairs : Fit → List String → Result Error Labelling
  unfolding label_clusters customer_labels
  label_pairs result vocabulary = label_clusters ops result vocabulary >>= λ labels.
      customer_labels labels result.customer_ids result.assignments
