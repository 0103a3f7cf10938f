-- ===== src/Experiments/Chains.antt =====
-- A chain of checks that has returned: what each of its steps has found.
use retail_segmentation.Prelude.{
  ◌≡◌, refl, Bool, true, false, not, Option, none, some, Result, ok, err, ◌>>=◌, raise_if,
}
use retail_segmentation.Experiments.Lab.{Refusal}
use retail_segmentation.Experiments.Campaigns.{known}

-- The steps of a chain that has returned.
pub after_known :
    {A B : Type 0} (o : Option A) (e : Refusal) (f : A → Result Refusal B) (b : B)
    → (known o e >>= f) ≡ ok b
    → (a : A) × (o ≡ some a) × (f a ≡ ok b)
after_known none e f b h = cc
after_known (some a) e f b h = (a, refl, h)

pub after_raise :
    {B : Type 0} (t : Bool) (e : Refusal) (f : Unit → Result Refusal B) (b : B)
    → (raise_if t e >>= f) ≡ ok b
    → (t ≡ false) × (f tt ≡ ok b)
after_raise true e f b h = cc
after_raise false e f b h = (refl, h)

pub after_check :
    {B : Type 0} (m : Result Refusal Unit) (f : Unit → Result Refusal B) (b : B)
    → (m >>= f) ≡ ok b
    → (m ≡ ok tt) × (f tt ≡ ok b)
after_check (ok u) f b h = (refl, h)
after_check (err e) f b h = cc

pub raise_if_ok : (t : Bool) (e : Refusal) → raise_if t e ≡ ok tt → t ≡ false
raise_if_ok true e h = cc
raise_if_ok false e h = refl

pub is_true : (t : Bool) → not t ≡ false → t ≡ true
is_true true h = refl
is_true false h = cc
