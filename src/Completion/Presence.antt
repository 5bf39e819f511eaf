-- ===== src/Completion/Presence.antt =====
-- A condition without custom parts is a matter of which types are present.
use orcastork.Base.{
  Bool, Bool-cases, List, Option, [], all, and-intro, and-true, arith, inl, inr, none, not, refl,
  some, sym, true, ◌&&◌, ◌++◌, ◌||◌, ◌∙◌, ◌∷◌, ◌≡◌,
}
use orcastork.DataPoint.{DataPoint, Class}
use orcastork.Classes.{Classes}
use orcastork.Completion.{
  referenced_types, Condition, Conditions, type_present, all_of, any_of, custom, no_more, also,
  is_present, is_satisfied, all_satisfied, any_satisfied, types_of, types_of_each, joined,
}

module _ (c : Classes) (view view' : List DataPoint) where
  -- Whether a type that is present in the one view is present in the other.
  abbrev pub carries : Class → Bool
  carries t = not (is_present c t view) || is_present c t view'

  joined_parts :
      (a b : Option (List Class)) (ts : List Class)
      → joined a b ≡ some ts
      → (us : List Class) × (vs : List Class) × (a ≡ some us) × (b ≡ some vs) × (ts ≡ us ++ vs)
  joined_parts none b ts h = absurd (ground arith)
  joined_parts (some us) none ts h = absurd (ground arith)
  joined_parts (some us) (some vs) ts h = (us, vs, refl, refl, ground arith)

  all-append : (p : Class → Bool) (xs ys : List Class) → all p (xs ++ ys) ≡ (all p xs && all p ys)
  unfolding all
  all-append p [] ys = refl
  all-append p (x ∷ xs) ys = ground (arith, all-append p xs ys)

  one_head :
      (t u : Class) (us : List Class)
      → ◌≡◌ {A = Option (List Class)} (some (t ∷ [])) (some (u ∷ us))
      → t ≡ u
  one_head t u us h = ground arith

  one_type :
      (t : Class) (ts : List Class)
      → ◌≡◌ {A = Option (List Class)} (some (t ∷ [])) (some ts)
      → all carries ts ≡ true
      → carries t ≡ true
  unfolding all
  one_type t [] h k = absurd (ground arith)
  one_type t (u ∷ us) h k = rw (one_head t u us h) ((and-true (carries u) _ k).0)

  mutual
    unfolding is_satisfied types_of

    stays :
        (k : Condition) (ts : List Class)
        → types_of k ≡ some ts
        → all carries ts ≡ true
        → is_satisfied c k view ≡ true
        → is_satisfied c k view' ≡ true
    stays (type_present t) ts h p s = ground (arith, one_type t ts h p)
    stays (all_of children) ts h p s = all_stays children ts h p s
    stays (any_of children) ts h p s = any_stays children ts h p s
    stays (custom check) ts h p s = absurd (ground arith)

    all_stays :
        (ks : Conditions) (ts : List Class)
        → types_of_each ks ≡ some ts
        → all carries ts ≡ true
        → all_satisfied c ks view ≡ true
        → all_satisfied c ks view' ≡ true
    all_stays no_more ts h p s = refl
    all_stays (also k ks) ts h p s =
        let (us, vs, a, b, e) = joined_parts (types_of k) (types_of_each ks) ts h in
        let (pu, pv) =
          and-true (all carries us) (all carries vs)
            (sym (all-append carries us vs) ∙ rw (sym e) p) in
        let (x, y) = and-true (is_satisfied c k view) _ s in
        and-intro _ _ (stays k us a pu x) (all_stays ks vs b pv y)

    any_stays :
        (ks : Conditions) (ts : List Class)
        → types_of_each ks ≡ some ts
        → all carries ts ≡ true
        → any_satisfied c ks view ≡ true
        → any_satisfied c ks view' ≡ true
    any_stays no_more ts h p s = s
    any_stays (also k ks) ts h p s =
        let (us, vs, a, b, e) = joined_parts (types_of k) (types_of_each ks) ts h in
        let (pu, pv) =
          and-true (all carries us) (all carries vs)
            (sym (all-append carries us vs) ∙ rw (sym e) p) in
        elim (Bool-cases (is_satisfied c k view)) [
          | inl x ↦ ground (arith, stays k us a pu x)
          | inr x ↦ ground (arith, any_stays ks vs b pv (ground arith))
        ]

  -- A condition whose referenced types are known, and that is satisfied, stays satisfied in any view in
  -- which every referenced type that was present is present.
  pub is_satisfied-stays :
      (condition : Condition) (ts : List Class)
      → referenced_types (some condition) ≡ some ts
      → all carries ts ≡ true
      → is_satisfied c condition view ≡ true
      → is_satisfied c condition view' ≡ true
  unfolding referenced_types
  is_satisfied-stays condition ts h p s = stays condition ts h p s
