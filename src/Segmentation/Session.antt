-- ===== src/Segmentation/Session.antt =====
-- A unit of work on a connection: actions that may raise, and `atomic` of web/db/transactions.py.
use retail_segmentation.Prelude.{
  ℕ, ◌≡◌, refl, ◌∙◌, Bool, true, false, List, [], ◌∷◌, ◌++◌, arith, if◌then◌else◌, Result, ok, err,
}
use retail_segmentation.Segmentation.Domain.{Error}
use retail_segmentation.Segmentation.Checks.{contains}
use retail_segmentation.Segmentation.Store.{Db}

-- `stored` is what is committed, `working` what the transaction in flight sees. `owners` is the
-- context variable `_owners`: the connections, by identity, that a unit of work holds.
pub record Connection : Type 0 where
  pub ident : ℕ
  pub owners : List ℕ
  pub stored : Db
  pub working : Db

abbrev pub Action : Type 0 → Type 0
Action A = Connection → Result Error A × Connection

module _ {A : Type 0} where
  abbrev pub pure : A → Action A
  pure a c = (ok a, c)

  abbrev pub lift : Result Error A → Action A
  lift r c = (r, c)

  abbrev pub gets : (Db → A) → Action A
  gets f c = (ok (f c.working), c)

  -- A write: the statement's effect on the working state stays when it raises.
  abbrev pub update : (Db → Result Error A × Db) → Action A
  update f c = let (r, db) = f c.working in (r, record c { working = db })

abbrev continue : {A B : Type 0} → Result Error A → (A → Action B) → Action B
continue (ok a) f c = f a c
continue (err e) f c = (err e, c)

infixl 5 ◌>>=◌ ◌>>◌
unfoldable pub ◌>>=◌ : {A B : Type 0} → Action A → (A → Action B) → Action B
◌>>=◌ m f c = let (r, c') = m c in continue r f c'

abbrev pub ◌>>◌ : {B : Type 0} → Action Unit → Action B → Action B
m >> n = m >>= λ _. n

abbrev pub owned : Connection → Bool
owned c = contains c.ident c.owners

-- `finally: _owners.reset(token)`, after a commit or a rollback.
abbrev finish : {A : Type 0} → List ℕ → Result Error A × Connection → Result Error A × Connection
finish owners (ok a, c) = (ok a, record c { owners = owners; stored = c.working })
finish owners (err e, c) = (err e, record c { owners = owners; working = c.stored })

unfoldable pub atomic : {A : Type 0} → Action A → Action A
atomic f c =
    if owned c then f c else finish c.owners (f (record c { owners = c.owners ++ c.ident ∷ [] }))

-- Under an owner the action neither commits nor rolls back.
pub record Joins {A : Type 0} (m : Action A) : Type 0 where
  pub at :
      (c : Connection)
      → owned c ≡ true
      → ((m c).1.stored ≡ c.stored) × ((m c).1.ident ≡ c.ident) × ((m c).1.owners ≡ c.owners)

module _ {A : Type 0} where
  pub Joins-lift : (r : Result Error A) → Joins (lift r)
  Joins-lift r = record { at = λ c o. (refl, refl, refl) }

  pub Joins-pure : (a : A) → Joins (pure a)
  Joins-pure a = record { at = λ c o. (refl, refl, refl) }

  pub Joins-gets : (f : Db → A) → Joins (gets f)
  Joins-gets f = record { at = λ c o. (refl, refl, refl) }

  pub Joins-update : (f : Db → Result Error A × Db) → Joins (update f)
  Joins-update f = record { at = λ c o. (refl, refl, refl) }

  pub Joins-atomic : (m : Action A) → Joins m → Joins (atomic m)
  unfolding atomic
  Joins-atomic m j = record { at = λ c o. rw o (j.at c o) }

Joins-continue :
    {A B : Type 0} (r : Result Error A) (f : A → Action B)
    → ((a : A) → Joins (f a))
    → Joins (continue r f)
Joins-continue (ok a) f jf = jf a
Joins-continue (err e) f jf = record { at = λ c o. (refl, refl, refl) }

pub Joins-bind :
    {A B : Type 0} (m : Action A) (f : A → Action B)
    → Joins m
    → ((a : A) → Joins (f a))
    → Joins (m >>= f)
unfolding ◌>>=◌
Joins-bind m f jm jf = record {
  at = λ c o.
      let (r, c') = m c in
      let here = jm.at c o in
      let there = (Joins-continue r f jf).at c' (rw (here.1, here.2) o) in
      (there.0 ∙ here.0, there.1 ∙ here.1, there.2 ∙ here.2);
}

pub ruleset joins_rules =
    (Joins-lift, Joins-pure, Joins-gets, Joins-update, Joins-atomic, Joins-bind)

contains-append_self : (i : ℕ) (l : List ℕ) → contains i (l ++ i ∷ []) ≡ true
contains-append_self i [] = ground arith
contains-append_self i (j ∷ l) = ground (arith, contains-append_self i l)

-- What is left after a unit of work that owns its connection: on success exactly what the work wrote
-- is committed; on an error nothing is, and its writes are gone.
pub data Outcome (before after : Connection) : Bool → Type 0 where
  committed : after.stored ≡ after.working → Outcome before after true
  rolled_back :
      after.stored ≡ before.stored → after.working ≡ before.stored → Outcome before after false

abbrev pub succeeded : {A : Type 0} → Result Error A → Bool
succeeded (ok a) = true
succeeded (err e) = false

finish-Outcome :
    {A : Type 0} (before : Connection) (r : Result Error A) (c : Connection)
    → c.stored ≡ before.stored
    → Outcome before (finish before.owners (r, c)).1 (succeeded (finish before.owners (r, c)).0)
finish-Outcome before (ok a) c h = committed refl
finish-Outcome before (err e) c h = rolled_back h h

module _ {A : Type 0} (m : Action A) (joins : Joins m) (c : Connection)
    (fresh : owned c ≡ false) where
  abbrev pub claimed : Connection
  claimed = record c { owners = c.owners ++ c.ident ∷ [] }

  pub atomic-Outcome : Outcome c (atomic m c).1 (succeeded (atomic m c).0)
  unfolding atomic
  atomic-Outcome =
      let (r, c') = m claimed in
      let stays = joins.at claimed (contains-append_self c.ident c.owners) in
      rw fresh (finish-Outcome c r c' stays.0)

  pub atomic-owners : (atomic m c).1.owners ≡ c.owners
  unfolding atomic
  atomic-owners = rw fresh (finish-owners (m claimed).0 (m claimed).1)
    where
      finish-owners :
          (r : Result Error A) (d : Connection) → (finish c.owners (r, d)).1.owners ≡ c.owners
      finish-owners (ok a) d = refl
      finish-owners (err e) d = refl

  pub owned-claimed : owned claimed ≡ true
  owned-claimed = contains-append_self c.ident c.owners

  finish-result : (r : Result Error A) (d : Connection) → (finish c.owners (r, d)).0 ≡ r
  finish-result (ok a) d = refl
  finish-result (err e) d = refl

  pub atomic-result : (atomic m c).0 ≡ (m claimed).0
  unfolding atomic
  atomic-result = rw fresh (finish-result (m claimed).0 (m claimed).1)

  pub atomic-committed :
      (a : A) (d : Connection) → m claimed ≡ (ok a, d) → (atomic m c).1.stored ≡ d.working
  unfolding atomic
  atomic-committed a d h = rw (fresh, h)
