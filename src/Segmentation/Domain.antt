-- ===== src/Segmentation/Domain.antt =====
-- The values that cross the pipeline's boundary (web/services/segmentation.py): assignments,
-- adapters and results, and the errors that a run may raise. An identifier is only compared, so it
-- is a number; a datetime is a number of seconds, money a number of cents, a float its bit pattern.
use retail_segmentation.Kmeans.Domain as Kmeans
use retail_segmentation.Labels.Ranks as Ranks
use retail_segmentation.Floats.{Float}
use retail_segmentation.Prelude.{
  ℕ, Bool, true, false, ◌&&◌, not, Option, none, some, List, String, ℤ, Result, ◌==◌, str_eq,
}

-- The exceptions, one constructor for each place that raises.
pub data Error : Type 0 where
  window_not_a_number window_out_of_range : Error
  unknown_method method_unavailable adapter_mismatch : Error
  measured_unlabelled labelled_unmeasured appears_twice : ℕ → Error
  label_mapping_incomplete : Error
  label_error : Ranks.Error → Error
  fit_error : Kmeans.Error → Error
  not_json unique_violation notification_failed : Error

-- What a run stores as its parameters.
mutual
  pub data Json : Type 0 where
    null : Json
    boolean : Bool → Json
    integer : ℤ → Json
    float : Float → Json
    text : String → Json
    array : Items → Json
    object : Fields → Json

  pub data Items : Type 0 where
    nil : Items
    cons : Json → Items → Items

  pub data Fields : Type 0 where
    end : Fields
    field : String → Json → Fields → Fields

pub record Assignment : Type 0 where
  pub customer_id : ℕ
  pub label_code : Option String
  pub segment_id : Option ℕ
  pub last_purchase_at : Option ℕ
  pub frequency : Option ℕ
  pub monetary : Option ℕ
  pub r_score : Option ℕ
  pub f_score : Option ℕ
  pub m_score : Option ℕ
  pub via_fallback : Bool

pub record MethodOutput : Type 0 where
  pub assignments : List Assignment
  pub parameters : Fields

-- `Db` is what an adapter reads; it decides and writes nothing.
pub record MethodAdapter (Db : Type 0) : Type 0 where
  pub method : String
  pub decide : Db → ℕ → Result Error MethodOutput

pub record RunCounts : Type 0 where
  pub processed : ℕ
  pub assigned : ℕ
  pub unmatched : ℕ
  pub reassigned : ℕ
  pub cleared : ℕ
  pub fallback : ℕ

-- `seconds`, the time taken, is read from a clock and stands in no result here.
pub record RunResult : Type 0 where
  pub window_days : ℕ
  pub processed : ℕ
  pub assigned : ℕ
  pub unmatched : ℕ
  pub reassigned : ℕ
  pub cleared : ℕ
  pub fallback : ℕ
  pub run_id : ℕ
  pub method : String
  pub data_origin : String

unfoldable pub no_segment_changed : RunResult → Bool
no_segment_changed r = r.reassigned == 0 && r.cleared == 0

abbrev pub observed : String
observed = "OBSERVED"

abbrev pub seeded : String
seeded = "SEEDED"

unfoldable pub is_seeded : Option String → Bool
is_seeded none = false
is_seeded (some data_origin) = not (str_eq data_origin observed)

unfoldable pub synthetic : RunResult → Bool
unfolding is_seeded
synthetic r = is_seeded (some r.data_origin)

abbrev pub is_some : {A : Type 0} → Option A → Bool
is_some none = false
is_some (some _) = true
