-- ===== src/Segmentation/Clusters.antt =====
-- The KMEANS decision: `recorded_parameters` of web/services/kmeans.py, and `kmeans_adapter`,
-- `_run_kmeans_adapter` and `run_kmeans` of web/services/segmentation.py.
use retail_segmentation.Prelude.{
  ℕ, ◌-◌, Bool, true, false, not, Option, none, some, List, [], ◌∷◌, ◌++◌, map, length,
  if◌then◌else◌, ◌==◌, ltb, String, Result, ok, err, ◌>>=◌, raise_if, range, keep, sort_by, ℤ, pos,
}
use retail_segmentation.Floats.{Float, FloatOps}
use retail_segmentation.Kmeans.Domain as Kmeans
use retail_segmentation.Kmeans.Domain.{Point, Params, RawRfm, Fit}
use retail_segmentation.Kmeans.Fit.{fit_customers}
use retail_segmentation.Labels.Ranks as Ranks
use retail_segmentation.Labels.Ranks.{
  Labelling, Mapping, label_of, label_clusters, check_vocabulary_size, describe_mapping,
  too_few_clusters, empty_vocabulary, is_empty,
}
use retail_segmentation.Segmentation.Domain.{
  Assignment, Fields, Items, Json, Error, fit_error, label_error, label_mapping_incomplete,
  MethodOutput, RunResult, is_some,
}
use retail_segmentation.Segmentation.Store.{Db, Label}
use retail_segmentation.Segmentation.Scoring.{Measures, window_sales}
use retail_segmentation.Segmentation.Session.{Action}
use retail_segmentation.Segmentation.Pipeline.{run_method}

-- A row of `read_rfm_inputs`: the three measures come from one joined row, and are null together.
pub record CustomerSales : Type 0 where
  pub customer_id : ℕ
  pub measures : Option Measures

unfoldable pub read_rfm_inputs : Db → ℕ → List CustomerSales
read_rfm_inputs db days =
    map (λ i. record { customer_id = i; measures = window_sales db days i })
      (sort_by ltb db.customers)

-- The rows with sales, as the fit takes them.
raw_rows : List CustomerSales → List RawRfm
raw_rows [] = []
raw_rows (row ∷ rest) =
    let others = raw_rows rest in
    elim row.measures [
      | none ↦ others
      | some m ↦
          record {
            customer_id = row.customer_id;
            last_purchase_at = m.last_purchase;
            frequency = m.frequency;
            monetary = m.monetary;
          }
          ∷ others
    ]

-- A Python dict of parameters from its entries.
abbrev fields : List (String × Json) → Fields
fields [] = Fields.end
fields ((key, value) ∷ rest) = Fields.field key value (fields rest)

abbrev with_fields : Fields → Fields → Fields
with_fields Fields.end more = more
with_fields (Fields.field key value rest) more = Fields.field key value (with_fields rest more)

abbrev nat : ℕ → Json
nat n = Json.integer (pos n)

abbrev items_of : List Json → Items
items_of [] = Items.nil
items_of (x ∷ xs) = Items.cons x (items_of xs)

abbrev to_result : {A : Type 0} → Result Kmeans.Error A → Result Error A
to_result (ok a) = ok a
to_result (err e) = err (fit_error e)

abbrev to_labels : {A : Type 0} → Result Ranks.Error A → Result Error A
to_labels (ok a) = ok a
to_labels (err e) = err (label_error e)

module _ (ops : FloatOps) where
  silhouette_field : Option Float → Json
  silhouette_field none = Json.null
  silhouette_field (some x) = Json.float (ops.round6 x)

  skipped_field : Option Float → List (String × Json)
  skipped_field none = ("silhouette_skipped", Json.text "a single cluster has no silhouette") ∷ []
  skipped_field (some x) = []

  sampled_fields : Option ℕ → ℤ → List (String × Json)
  sampled_fields none seed = []
  sampled_fields (some size) seed =
      ("silhouette_sampled", Json.boolean true)
      ∷ ("silhouette_sample_size", nat size)
      ∷ ("silhouette_sample_seed", Json.integer seed)
      ∷ []

  quality : Fit → List (String × Json)
  unfolding silhouette_field skipped_field sampled_fields
  quality result =
      (("inertia", Json.float (ops.round6 result.inertia))
        ∷ ("silhouette", silhouette_field result.silhouette)
        ∷ ("cluster_sizes", Json.array (items_of (map nat result.cluster_sizes)))
        ∷ ("iterations", nat result.iterations)
        ∷ ("converged", Json.boolean result.converged)
        ∷ ("stopped_on", Json.text result.stopped_on)
        ∷ ("final_shift", Json.float (ops.round6 result.final_shift))
        ∷ ("empty_cluster_events", nat result.empty_cluster_events)
        ∷ ("customers_clustered", nat (length result.customer_ids))
        ∷ [])
      ++ (skipped_field result.silhouette
          ++ sampled_fields result.silhouette_sample result.params.seed)

  -- `recorded_parameters`, with the quality entries that the adapter adds.
  unfoldable pub recorded_parameters : Fit → ℕ → List (String × Json) → Fields
  unfolding quality
  recorded_parameters result days added = fields (
      ("k", nat result.params.k)
      ∷ ("seed", Json.integer result.params.seed)
      ∷ ("max_iterations", nat result.params.max_iterations)
      ∷ ("tolerance", Json.float result.params.tolerance)
      ∷ ("window_days", nat days)
      ∷ ("initialisation", Json.text "k-means++, seeded")
      ∷ (
        "normalisation",
        Json.text
            "min-max to [0, 1] across the run; recency reversed so higher is better; a constant feature is 0",
      )
      ∷ (
        "empty_cluster_policy",
        Json.text
            "an emptied cluster takes the customer farthest from their own cluster's centre, from a cluster holding at least two; lowest customer id on a tie",
      )
      ∷ (
        "tie_break",
        Json.text "a customer equidistant from two clusters goes to the lower-numbered one",
      )
      ∷ ("quality", Json.object (fields (quality result ++ added)))
      ∷ [])

-- `cluster_of.get(customer_id)`, over the aligned ids and assignments.
cluster_of : List ℕ → List ℕ → ℕ → Option ℕ
cluster_of (j ∷ ids) (c ∷ clusters) i =
    let rest = cluster_of ids clusters i in if j == i then some c else rest
cluster_of ids clusters i = none

label_for : Labelling → Option ℕ → Option String
label_for labels none = none
label_for labels (some c) = label_of labels c

abbrev last_of : Option Measures → Option ℕ
last_of none = none
last_of (some m) = some m.last_purchase

abbrev frequency_of : Option Measures → Option ℕ
frequency_of none = none
frequency_of (some m) = some m.frequency

abbrev monetary_of : Option Measures → Option ℕ
monetary_of none = none
monetary_of (some m) = some m.monetary

abbrev clustered : Fit → Labelling → CustomerSales → Assignment
clustered fitted labels row = record {
  customer_id = row.customer_id;
  label_code = label_for labels (cluster_of fitted.customer_ids fitted.assignments row.customer_id);
  segment_id = none;
  last_purchase_at = last_of row.measures;
  frequency = frequency_of row.measures;
  monetary = monetary_of row.measures;
  r_score = none;
  f_score = none;
  m_score = none;
  via_fallback = false;
}

abbrev any_unlabelled : ℕ → Labelling → Bool
any_unlabelled k labels =
    not (length (keep (λ c. not (is_some (label_of labels c))) (range k)) == 0)

module _ (ops : FloatOps) (draw : ℤ → ℕ → Float)
    (silhouette : List Point → List ℕ → ℕ → ℤ → Option Float × Option ℕ) (params : Params) where
  -- `adapt` of `kmeans_adapter`, for any mapping of a fit's clusters to labels.
  unfoldable pub kmeans_adapter :
      (Fit → Result Error Labelling) → Db → ℕ → Result Error MethodOutput
  unfolding read_rfm_inputs raw_rows cluster_of label_for recorded_parameters
  kmeans_adapter label_for_clusters db days =
      let inputs = read_rfm_inputs db days in
      let measured = raw_rows inputs in
      to_result (fit_customers ops draw silhouette measured params) >>= λ fitted.
      label_for_clusters fitted >>= λ labels.
      raise_if (any_unlabelled params.k labels) label_mapping_incomplete >>= λ _. ok (record {
        assignments = map (clustered fitted labels) inputs;
        parameters =
            recorded_parameters ops fitted days
              (("customers_unassigned", nat (length inputs - length measured)) ∷ []);
      })

  -- The labels best to worst, by `ordinal_position`.
  unfoldable pub vocabulary : Db → List String
  vocabulary db =
      map (λ (l : Label). l.label_code)
        (sort_by (λ a b. ltb a.ordinal_position b.ordinal_position) db.labels)

  pair_of : String × ℕ → String × Json
  pair_of (label, n) = (label, nat n)

  mapping_json : Mapping → Json
  unfolding pair_of
  mapping_json m = Json.object (
      fields (
        ("rule", Json.text m.rule)
        ∷ ("vocabulary_size", nat m.vocabulary_size)
        ∷ ("labels_by_rank", Json.array (items_of (map Json.text m.labels_by_rank)))
        ∷ ("clusters_per_label", Json.object (fields (map pair_of m.clusters_per_label)))
        ∷ ("shared_labels", Json.array (items_of (map Json.text m.shared_labels)))
        ∷ ("labels_without_cluster", Json.array (items_of (map Json.text m.labels_without_cluster)))
        ∷ []))

  -- `adapt` of `_run_kmeans_adapter`
  unfoldable pub run_kmeans_adapter : Db → ℕ → Result Error MethodOutput
  unfolding vocabulary kmeans_adapter mapping_json
  run_kmeans_adapter db days =
      let words = vocabulary db in
      to_labels (check_vocabulary_size params.k words) >>= λ _.
      kmeans_adapter (λ fitted. to_labels (label_clusters ops fitted words)) db days >>= λ output.
      to_labels (describe_mapping params.k words) >>= λ described. ok (record output {
        parameters =
            with_fields output.parameters
              (Fields.field "label_mapping" (mapping_json described) Fields.end);
      })

  unfoldable pub run_kmeans : (ℕ → List ℕ → Result Error (List ℕ)) → ℕ → Action RunResult
  unfolding run_method
  run_kmeans write_notice days =
      run_method write_notice "KMEANS" days
        (some (record { method = "KMEANS"; decide = run_kmeans_adapter }))
