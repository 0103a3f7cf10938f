-- ===== src/Experiments/Rows.antt =====
-- The rows of a plan, and the loop of `insert_assignments` of web/db/experiments.py over rows that can be written.
use mathlib.Core.List.{
  Mem, Nodup, Pairwise-cons, append_assoc, append-nil, mem-cons_self, mem-cons_of_mem,
}
use retail_segmentation.Prelude.{
  ℕ, ◌≡◌, ◌≢◌, refl, sym, ap, ◌∙◌, Bool, true, false, List, [], ◌∷◌, ◌++◌, map, any, All,
  All-append, All-mono, All-both, Pairwise, arith, ok,
}
use retail_segmentation.Experiments.Lab.{Assigned, Lab}
use retail_segmentation.Experiments.Assignment.{
  Arm, insert_assignments, is_assigned, is_group, rows_of, with_assignment,
}
use retail_segmentation.Experiments.Dealing.{flat}
use retail_segmentation.Experiments.Arms.{group_ids, lists_of}

pub All-of_mem {ℓ} :
    {A : Type ℓ} (P : A → Type 0) (xs : List A) → ((a : A) → Mem a xs → P a) → All P xs
All-of_mem P [] h = tt
All-of_mem P (x ∷ xs) h = (h x mem-cons_self, All-of_mem P xs (λ a m. h a (mem-cons_of_mem x m)))

abbrev pub AllDiffer : List ℕ → Type 0
AllDiffer xs = Pairwise (λ (a b : ℕ). a ≢ b) xs

pub Nodup-AllDiffer : (xs : List ℕ) → Nodup xs → AllDiffer xs
Nodup-AllDiffer [] h = tt
Nodup-AllDiffer (x ∷ xs) n =
    let (h, t) = Pairwise-cons.0 n in (All-of_mem (λ y. x ≢ y) xs h, Nodup-AllDiffer xs t)

-- The customers and the groups of the rows to write.
abbrev pub customers_of : List (ℕ × ℕ) → List ℕ
customers_of rows = map (λ r. r.1) rows

pub customers_of-append :
    (xs ys : List (ℕ × ℕ)) → customers_of (xs ++ ys) ≡ customers_of xs ++ customers_of ys
customers_of-append [] ys = refl
customers_of-append (x ∷ xs) ys = ap (λ l. x.1 ∷ l) (customers_of-append xs ys)

pub customers_of-map : (g : ℕ) (cs : List ℕ) → customers_of (map (λ c. (g, c)) cs) ≡ cs
customers_of-map g [] = refl
customers_of-map g (c ∷ cs) = ap (λ l. c ∷ l) (customers_of-map g cs)

pub customers_of-rows_of : (arms : List Arm) → customers_of (rows_of arms) ≡ flat (lists_of arms)
unfolding rows_of
customers_of-rows_of [] = refl
customers_of-rows_of (arm ∷ arms) =
    customers_of-append (map (λ c. (arm.group_id, c)) arm.customers) (rows_of arms)
    ∙ ap (λ l. l ++ customers_of (rows_of arms)) (customers_of-map arm.group_id arm.customers)
    ∙ ap (λ l. arm.customers ++ l) (customers_of-rows_of arms)

pub All-pairs :
    (P : ℕ → Type 0) (g : ℕ) (cs : List ℕ) → P g → All (λ (r : ℕ × ℕ). P r.0) (map (λ c. (g, c)) cs)
All-pairs P g [] h = tt
All-pairs P g (c ∷ cs) h = (h, All-pairs P g cs h)

pub All-rows_of :
    (P : ℕ → Type 0) (arms : List Arm)
    → All P (group_ids arms)
    → All (λ (r : ℕ × ℕ). P r.0) (rows_of arms)
unfolding rows_of
All-rows_of P [] h = tt
All-rows_of P (arm ∷ arms) h =
    All-append (λ (r : ℕ × ℕ). P r.0) (map (λ c. (arm.group_id, c)) arm.customers) (rows_of arms)
      (All-pairs P arm.group_id arm.customers h.0) (All-rows_of P arms h.1)

-- Every row can be written: nobody is assigned yet, no customer comes twice, and each group is one of the experiment.
abbrev pub Fits : ℕ → List (ℕ × ℕ) → Lab → Type 0
Fits i rows lab =
    All (λ c. any (is_assigned i c) lab.assignments ≡ false) (customers_of rows)
    × AllDiffer (customers_of rows)
    × All (λ (r : ℕ × ℕ). any (is_group i r.0) lab.groups ≡ true) rows

abbrev pub pairs_of : List Assigned → List (ℕ × ℕ)
pairs_of rows = map (λ (a : Assigned). (a.group_id, a.customer_id)) rows

pub any-append {ℓ} :
    {A : Type ℓ} (p : A → Bool) (xs : List A) (y : A)
    → any p xs ≡ false
    → p y ≡ false
    → any p (xs ++ y ∷ []) ≡ false
any-append p [] y h k = ground (arith, k)
any-append p (x ∷ xs) y h k = ground (arith, any-append p xs y)

pub insert_one :
    (i group customer : ℕ) (rows : List (ℕ × ℕ)) (lab : Lab)
    → Fits i ((group, customer) ∷ rows) lab
    → insert_assignments i ((group, customer) ∷ rows) lab
      ≡ insert_assignments i rows (with_assignment lab i group customer)
unfolding insert_assignments
insert_one i group customer rows lab (a, d, g) = rw (a.0, g.0) refl

pub still_Fits :
    (i group customer : ℕ) (rows : List (ℕ × ℕ)) (lab : Lab)
    → Fits i ((group, customer) ∷ rows) lab
    → Fits i rows (with_assignment lab i group customer)
still_Fits i group customer rows lab (a, d, g) = (
  All-mono (λ c. (any (is_assigned i c) lab.assignments ≡ false) × (customer ≢ c))
      (λ c. any (is_assigned i c) (with_assignment lab i group customer).assignments ≡ false)
      (λ c h. any-append (is_assigned i c) lab.assignments _ h.0 (ground (arith, h.1)))
      (customers_of rows)
      (All-both (λ c. any (is_assigned i c) lab.assignments ≡ false) (λ c. customer ≢ c)
        (customers_of rows) a.1 d.0),
  d.1,
  g.1,
)

pub insert_assignments_all :
    (i : ℕ) (rows : List (ℕ × ℕ)) (lab : Lab)
    → Fits i rows lab
    → (after : Lab) × (new : List Assigned) × (insert_assignments i rows lab ≡ ok after)
      × (after.assignments ≡ lab.assignments ++ new)
      × (pairs_of new ≡ rows)
unfolding insert_assignments
insert_assignments_all i [] lab h = (lab, [], refl, sym (append-nil lab.assignments), refl)
insert_assignments_all i ((group, customer) ∷ rows) lab h =
    let (after, new, inserted, e, pairs) =
      insert_assignments_all i rows (with_assignment lab i group customer)
        (still_Fits i group customer rows lab h) in
    let row : Assigned = record {
      assignment_id = lab.next_assignment_id;
      experiment_id = i;
      group_id = group;
      customer_id = customer;
      assigned_at = lab.now;
    } in
    (
      after,
      row ∷ new,
      insert_one i group customer rows lab h ∙ inserted,
      e ∙ append_assoc lab.assignments (row ∷ []) new,
      ap (λ l. (group, customer) ∷ l) pairs,
    )
