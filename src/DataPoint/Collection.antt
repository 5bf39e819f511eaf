-- ===== src/DataPoint/Collection.antt =====
-- orcastork/datapoints/collection.py: a keyed collection that merges on add.
use orcastork.Base.Dict.{get-put, Dict, get, has, put}
use orcastork.Base.{
  ℕ, max, Option-cases, inl, inr, arith, Bool, List, Option, [], ap, false, sym, true,
  if◌then◌else◌, none, refl, some, ◌==◌, ◌∙◌, ◌∷◌, ◌≡◌,
}
use mathlib.Core.Option
use orcastork.DataPoint.{key_beq_iff, DataPoint, Key, key_eq, identity_key, reobserved}

pub data MergeKind : Type 0 where
  added updated : MergeKind

pub record MergeResult : Type 0 where
  pub kind : MergeKind
  pub data_point : DataPoint

pub record DataPointSet : Type 0 where
  pub items : Dict Key DataPoint

unfoldable pub add : DataPoint → DataPointSet → MergeResult × DataPointSet
add d set = elim (get (identity_key d) set.items) [
  | none ↦
      (record { kind = added; data_point = d }, record { items = put (identity_key d) d set.items })
  | some existing ↦
      let merged = reobserved d.last_retrieved existing in
      (
        record { kind = updated; data_point = merged },
        record { items = put (identity_key d) merged set.items },
      )
]

unfoldable pub add_each : List DataPoint → DataPointSet → DataPointSet
unfolding add
add_each [] set = set
add_each (d ∷ ds) set = add_each ds (add d set).1

-- `DataPointSet(items)`
unfoldable pub of_items : List DataPoint → DataPointSet
unfolding add_each
of_items ds = add_each ds (record { items = [] })

-- `data_point in self`
unfoldable pub contains_point : DataPoint → DataPointSet → Bool
contains_point d set = has (identity_key d) set.items

-- The specification, apart from the collection: the first observation of an identity, and the last time
-- at which it was observed.
abbrev pub first_of : Key → List DataPoint → Option DataPoint
first_of k [] = none
first_of k (d ∷ ds) = if identity_key d == k then some d else first_of k ds

abbrev pub latest : Key → List DataPoint → ℕ → ℕ
latest k [] at = at
latest k (d ∷ ds) at = latest k ds (if identity_key d == k then max at d.last_retrieved else at)

abbrev seen_until : Key → List DataPoint → DataPoint → DataPoint
seen_until k ds d = record d { last_retrieved = latest k ds d.last_retrieved }

-- What a collection that held `before` under the identity holds after the observations.
abbrev pub observed : Key → List DataPoint → Option DataPoint → Option DataPoint
observed k ds (some before) = some (seen_until k ds before)
observed k ds none = Option.map (seen_until k ds) (first_of k ds)

get-add :
    (k : Key) (d : DataPoint) (set : DataPointSet)
    → get k (add d set).1.items ≡ (
        if identity_key d == k
        then some (elim (get k set.items) [ none ↦ d | some old ↦ reobserved d.last_retrieved old ])
        else get k set.items)
unfolding add
get-add k d set = elim (Option-cases (get (identity_key d) set.items)) [
  | inl new ↦ ground (arith, key_beq_iff (identity_key d) k, get-put (identity_key d) k d set.items)
  | inr (old, seen) ↦ ground (
    arith,
    key_beq_iff (identity_key d) k,
    get-put (identity_key d) k (reobserved d.last_retrieved old) set.items,
  )
]

same_max : (n : ℕ) → max n n ≡ n
same_max n = omega arith

-- One observation, by whether it is of the identity.
first_step :
    (b : Bool) (k : Key) (d : DataPoint) (ds : List DataPoint)
    → observed k ds (if b then some d else none)
      ≡ Option.map {A = DataPoint}
          (λ x. record x {
            last_retrieved =
                latest k ds (if b then max x.last_retrieved d.last_retrieved else x.last_retrieved);
          })
          (if b then some d else first_of k ds)
first_step true k d ds =
    ap (λ n. some (record d { last_retrieved = latest k ds n })) (sym (same_max d.last_retrieved))
first_step false k d ds = refl

later_step :
    (b : Bool) (k : Key) (d old : DataPoint) (ds : List DataPoint)
    → observed k ds (some (if b then reobserved d.last_retrieved old else old))
      ≡ some (record old {
        last_retrieved =
            latest k ds (if b then max old.last_retrieved d.last_retrieved else old.last_retrieved);
      })
unfolding reobserved
later_step true k d old ds = refl
later_step false k d old ds = refl

some_if :
    {A : Type 0} (b : Bool) (x y : A) → (if b then some x else some y) ≡ some (if b then x else y)
some_if true x y = refl
some_if false x y = refl

observed-step :
    (k : Key) (d : DataPoint) (ds : List DataPoint) (before : Option DataPoint)
    → observed k ds (
        if identity_key d == k
        then some (elim before [ none ↦ d | some old ↦ reobserved d.last_retrieved old ])
        else before)
      ≡ observed k (d ∷ ds) before
observed-step k d ds none = first_step (identity_key d == k) k d ds
observed-step k d ds (some old) =
    ap (observed k ds) (some_if (identity_key d == k) (reobserved d.last_retrieved old) old)
    ∙ later_step (identity_key d == k) k d old ds

observed-nil : (k : Key) (before : Option DataPoint) → before ≡ observed k [] before
observed-nil k none = refl
observed-nil k (some d) = refl

-- A collection to which observations are added in order holds, for each identity, what it held before
-- or else its first observation, with its last time raised to the greatest one of all that are of
-- the identity.
pub get-add_each :
    (k : Key) (ds : List DataPoint) (set : DataPointSet)
    → get k (add_each ds set).items ≡ observed k ds (get k set.items)
unfolding add_each
get-add_each k [] set = observed-nil k (get k set.items)
get-add_each k (d ∷ ds) set =
    get-add_each k ds (add d set).1
    ∙ ap (observed k ds) (get-add k d set)
    ∙ observed-step k d ds (get k set.items)
