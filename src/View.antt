-- ===== src/View.antt =====
-- orcastork/datapoints/view.py: the immutable view of a session's data points, as the list of its items.
use orcastork.Base.{
  and-intro, Bool, Option-cases, and-true, ap, arith, inl, inr, refl, sym, ◌∙◌, ◌⊎◌, List, Option,
  [], all, filter, if◌then◌else◌, leb, ltb, none, some, true, ℕ, ◌∷◌, ◌≡◌,
}
use orcastork.DataPoint.{DataPoint, Class}
use orcastork.Classes.{Classes}

module _ (c : Classes) where
  unfoldable pub of_type : Class → List DataPoint → List DataPoint
  of_type data_point_type view = filter (λ d. c.issubclass d.cls data_point_type) view

  -- `max(matches, key=…)`: the first of the newest
  abbrev newer : DataPoint → Option DataPoint → Option DataPoint
  newer d none = some d
  newer d (some best) = if ltb d.last_retrieved best.last_retrieved then some best else some d

  abbrev pub newest : List DataPoint → Option DataPoint
  newest [] = none
  newest (d ∷ ds) = newer d (newest ds)

  unfoldable pub latest : Class → List DataPoint → Option DataPoint
  unfolding of_type
  latest data_point_type view = newest (of_type data_point_type view)

  only : (x d : DataPoint) → newer x none ≡ some d → x ≡ d
  only x d e = ground arith

  same_age : (x d : DataPoint) → x ≡ d → leb x.last_retrieved d.last_retrieved ≡ true
  same_age x d e = rw (e) (ground arith)

  some_newer : (x : DataPoint) (best : Option DataPoint) → ¬ (newer x best ≡ none)
  some_newer x none h = absurd (ground arith)
  some_newer x (some best) h = absurd (ground arith)

  pick :
      (x best d : DataPoint)
      → newer x (some best) ≡ some d
      → (leb x.last_retrieved d.last_retrieved ≡ true)
        × (leb best.last_retrieved d.last_retrieved ≡ true)
  pick x best d e = (ground arith, ground arith)

  either : (x best d : DataPoint) → newer x (some best) ≡ some d → (best ≡ d) ⊎ (x ≡ d)
  either x best d e = ground arith

  all-filter : (p : DataPoint → Bool) (ds : List DataPoint) → all p (filter p ds) ≡ true
  unfolding all filter
  all-filter p [] = refl
  all-filter p (x ∷ ds) = ground (arith, all-filter p ds)

  -- What `newest` picks passes every test that all pass, and none is newer.
  newest-all :
      (p : DataPoint → Bool) (ds : List DataPoint) (d : DataPoint)
      → all p ds ≡ true
      → newest ds ≡ some d
      → p d ≡ true
  unfolding all
  newest-all p [] d h e = absurd (ground arith)
  newest-all p (x ∷ ds) d h e = elim (Option-cases (newest ds)) [
    | inl gone ↦ rw (sym (only x d (rw (gone) at e))) ((and-true (p x) _ h).0)
    | inr (best, there) ↦ elim (either x best d (rw (there) at e)) [
      | inl old ↦ newest-all p ds d (and-true (p x) _ h).1 (there ∙ ap some old)
      | inr new ↦ rw (sym new) ((and-true (p x) _ h).0)
    ]
  ]

  none_bound : (p : DataPoint → Bool) (ds : List DataPoint) → newest ds ≡ none → all p ds ≡ true
  unfolding all
  none_bound p [] h = refl
  none_bound p (x ∷ ds) h = absurd (some_newer x (newest ds) h)

  older :
      (m n : ℕ) (ds : List DataPoint)
      → leb m n ≡ true
      → all (λ o. leb o.last_retrieved m) ds ≡ true
      → all (λ o. leb o.last_retrieved n) ds ≡ true
  unfolding all
  older m n [] h k = refl
  older m n (x ∷ ds) h k = ground (arith, older m n ds h)

  newest-bound :
      (ds : List DataPoint) (d : DataPoint)
      → newest ds ≡ some d
      → all (λ o. leb o.last_retrieved d.last_retrieved) ds ≡ true
  unfolding all
  newest-bound [] d e = refl
  newest-bound (x ∷ ds) d e = elim (Option-cases (newest ds)) [
    | inl gone ↦
        and-intro _ _ (same_age x d (only x d (rw (gone) at e)))
          (none_bound (λ o. leb o.last_retrieved d.last_retrieved) ds gone)
    | inr (best, there) ↦
        let (a, b) = pick x best d (rw (there) at e) in
        and-intro _ _ a
          (older best.last_retrieved d.last_retrieved ds b (newest-bound ds best there))
  ]

  -- The latest data point of a type is one of that type, and none of that type is newer.
  pub latest-newest :
      (data_point_type : Class) (view : List DataPoint) (d : DataPoint)
      → latest data_point_type view ≡ some d
      → (c.issubclass d.cls data_point_type ≡ true)
        × (all (λ o. leb o.last_retrieved d.last_retrieved) (of_type data_point_type view) ≡ true)
  unfolding latest
  latest-newest data_point_type view d e = (
    newest-all (λ o. c.issubclass o.cls data_point_type) (of_type data_point_type view) d
        (all-filter (λ o. c.issubclass o.cls data_point_type) view) e,
    newest-bound (of_type data_point_type view) d e,
  )
