-- ===== src/Experiments/Writes.antt =====
-- What the loops of the services have written: `insert_assignments`, `insert_exposure` and the exposures of a group.
use retail_segmentation.Prelude.{
  ℕ, All, ◌∙◌, ◌≡◌, refl, not, List, [], ◌∷◌, ◌++◌, any, ok, ◌>>◌, ok_injective, raise_if, sym, ap,
  Bool-cases, inl, inr,
}
use mathlib.Core.List.{append_assoc, append-nil}
use retail_segmentation.Experiments.Assignment.{
  is_assigned, is_group, with_assignment, insert_assignments,
}
use retail_segmentation.Experiments.Exposure.{counted, is_recent, expose_all, insert_exposure}
use retail_segmentation.Experiments.Lab.{customer_already_assigned, unknown_group, Assigned, Lab}
use retail_segmentation.Experiments.Chains.{after_check}

pub pair_path : {A B : Type 0} {a c : A} {b d : B} → a ≡ c → b ≡ d → ◌≡◌ {A = A × B} (a, b) (c, d)
pair_path p q = cc

-- The rows that an assignment adds.
pub insert_assignments_ok :
    (i : ℕ) (rows : List (ℕ × ℕ)) (lab after : Lab)
    → insert_assignments i rows lab ≡ ok after
    → (new : List Assigned) × All (λ (a : Assigned). a.experiment_id ≡ i) new
      × (after ≡ record lab {
        next_assignment_id = after.next_assignment_id;
        assignments = lab.assignments ++ new;
      })
unfolding insert_assignments
insert_assignments_ok i [] lab after h =
    let e = sym (ok_injective h) in
    (
      [],
      tt,
      e
          ∙ ap
              (λ (q : ℕ × List Assigned). record lab {
                next_assignment_id = q.0;
                assignments = q.1;
              })
              (pair_path (ap (λ (l : Lab). l.next_assignment_id) (sym e))
                (sym (append-nil lab.assignments))),
    )
insert_assignments_ok i ((group, customer) ∷ rows) lab after h =
    let (allowed, h2) =
      after_check
        (raise_if (any (is_assigned i customer) lab.assignments) customer_already_assigned
          >> raise_if (not (any (is_group i group) lab.groups)) unknown_group)
        (λ u. insert_assignments i rows (with_assignment lab i group customer)) after h in
    let (new, all, e) =
      insert_assignments_ok i rows (with_assignment lab i group customer) after h2 in
    (
      record {
        assignment_id = lab.next_assignment_id;
        experiment_id = i;
        group_id = group;
        customer_id = customer;
        assigned_at = lab.now;
      }
          ∷ new,
      (refl, all),
      e
          ∙ ap (λ l. record lab { next_assignment_id = after.next_assignment_id; assignments = l })
              (append_assoc lab.assignments _ new),
    )

-- Exposures write nowhere else.
pub insert_exposure_frame :
    (lab : Lab) (assignment : ℕ)
    → (insert_exposure lab assignment).1
      ≡ record lab { exposures = (insert_exposure lab assignment).1.exposures }
unfolding insert_exposure
insert_exposure_frame lab assignment =
    elim (Bool-cases (any (is_recent lab assignment) lab.exposures)) [
      | inl recent ↦ rw recent refl
      | inr fresh ↦ rw fresh refl
    ]

pub expose_all_frame :
    (lab : Lab) (ids : List ℕ) (n : ℕ)
    → (expose_all lab ids n).1 ≡ record lab { exposures = (expose_all lab ids n).1.exposures }
unfolding expose_all
expose_all_frame lab [] n = refl
expose_all_frame lab (a ∷ ids) n =
    let ih = expose_all_frame (insert_exposure lab a).1 ids (counted (insert_exposure lab a).0 n) in
    let e = insert_exposure_frame lab a in
    ih
    ∙ ap
        (λ (l : Lab). record l {
          exposures =
              (expose_all (insert_exposure lab a).1 ids
                (counted (insert_exposure lab a).0 n)).1.exposures;
        })
        e
