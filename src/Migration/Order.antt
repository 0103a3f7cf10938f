-- ===== src/Migration/Order.antt =====
-- Which of two runs is the earlier: `order_runs` and `compute_migration`.
use retail_segmentation.Prelude.{
  ℕ, ◌<◌, ◌≡◌, refl, ap, true, false, some, List, leb, arith, Result, ok, ◌>>=◌,
}
use retail_segmentation.Segmentation.Store.{Db}
use retail_segmentation.Migration.Classify.{
  CustomerMigration, MigrationError, classify_migration, compute_migration, get_label_ordinals,
  get_run_at, list_run_labels, order_runs,
}

-- The classification from one run to another, in this order.
abbrev pub between : Db → ℕ → ℕ → Result MigrationError (List CustomerMigration)
between db earlier later =
    classify_migration (list_run_labels db earlier) (list_run_labels db later)
      (get_label_ordinals db)

earlier_first :
    (db : Db) (a b s t : ℕ)
    → get_run_at db a ≡ some s
    → get_run_at db b ≡ some t
    → s < t
    → (order_runs db a b ≡ ok (a, b)) × (order_runs db b a ≡ ok (a, b))
unfolding order_runs
earlier_first db a b s t found_a found_b h =
    let first : leb s t ≡ true = ground (arith, h) in
    let second : leb t s ≡ false = ground (arith, h) in
    ((rw (found_a, found_b, first) refl), rw (found_a, found_b, second) refl)

-- Of two runs recorded at different moments, either order of the arguments gives the classification from the
-- earlier to the later.
pub compute_migration_order :
    (db : Db) (a b s t : ℕ)
    → get_run_at db a ≡ some s
    → get_run_at db b ≡ some t
    → s < t
    → (compute_migration db a b ≡ between db a b) × (compute_migration db b a ≡ between db a b)
unfolding compute_migration
compute_migration_order db a b s t found_a found_b h =
    let (e, e') = earlier_first db a b s t found_a found_b h in
    let go = λ (r : Result MigrationError (ℕ × ℕ)). r >>= λ pair. between db pair.0 pair.1 in
    (ap go e, ap go e')
