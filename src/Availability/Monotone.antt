-- ===== src/Availability/Monotone.antt =====
-- Availability is a fixpoint, and grows with what is present and permitted.
use orcastork.Base.Dict.{get}
use orcastork.Base.{
  beq_refl, Bool, all-contains, inl, inr, length, not, pair_eq, suc, sym, ◌||◌, ◌↔◌, ◌⊎◌, List,
  String, [], all, and-intro, and-true, arith, contains, refl, true, ◌∷◌, ◌≡◌, nat_eq, string_eq,
  contains_of_any, any_of_contains,
}
use orcastork.DataPoint.{Class}
use orcastork.Classes.{all-any_subclass_weaken, Classes}
use orcastork.Fixpoint.{loop_induction, closed, loop-closed}
use orcastork.Availability.{
  deps_present, Registered, is_sub, requires_available, is_available, may_activate, make_available,
  compute_available,
}

abbrev pub Included : List String → List String → Type 0
Included xs ys = (t : String) → contains t xs ≡ true → contains t ys ≡ true

member_cons :
    (a b : String) (xs : List String)
    → contains a (b ∷ xs) ≡ true
    → (b ≡ a) ⊎ (contains a xs ≡ true)
unfolding contains
member_cons a b xs h = ground (arith, string_eq.beq_iff b a)

later : (a : String) (xs : List String) → Included xs (a ∷ xs)
unfolding contains
later a xs t h = ground arith

nothing_in : (xs : List String) → Included [] xs
unfolding contains
nothing_in xs t h = absurd (ground arith)

admitted_item : (there may : Bool) → (there || not may) ≡ true → may ≡ true → there ≡ true
admitted_item there may h k = ground arith

all_later :
    (p q : String × Class → Bool) (xs : List (String × Class))
    → ((a : String × Class) → p a ≡ true → q a ≡ true)
    → all p xs ≡ true
    → all q xs ≡ true
unfolding all
all_later p q [] f h = refl
all_later p q (x ∷ xs) f h =
    let (a, b) = and-true _ _ h in and-intro _ _ (f x a) (all_later p q xs f b)

each_member : (xs : List (String × Class)) → all (λ item. contains item xs) xs ≡ true
unfolding all contains
each_member [] = refl
each_member (x ∷ xs) = and-intro _ _ (ground (arith, beq_refl x.0, beq_refl x.1)) (
    all_later (λ item. contains item xs) (λ item. contains item (x ∷ xs)) xs (λ a h. ground arith)
      (each_member xs))

module _ (c : Classes) (registered : Registered) where
  requires_available-weaken :
      (requires : List Class) (xs ys : List String)
      → Included xs ys
      → requires_available c requires xs registered ≡ true
      → requires_available c requires ys registered ≡ true
  unfolding all
  requires_available-weaken [] xs ys h k = refl
  requires_available-weaken (required ∷ requires) xs ys h k =
      let (x, y) = and-true _ _ k in
      let (t, here, sub) = contains_of_any (λ t. is_sub c (get t registered) required) xs x in
      and-intro _ _
        (any_of_contains (λ t. is_sub c (get t registered) required) t ys (h t here) sub)
        (requires_available-weaken requires xs ys h y)

  module _ (permitted : List String) (present_types : List Class) where
    abbrev available : List String
    available = compute_available c registered permitted present_types

    available-closed :
        closed
          (is_available c registered permitted present_types)
          (may_activate c registered permitted present_types)
          (make_available c registered permitted present_types)
          registered
          available
        ≡ true
    unfolding compute_available contains
    available-closed =
        loop-closed (is_available c registered permitted present_types)
          (may_activate c registered permitted present_types)
          (make_available c registered permitted present_types)
          (λ a s. ground (arith, string_eq.beq_iff a.0 a.0)) (λ a b s h. ground arith) registered []

    available_of :
        (item : String × Class)
        → contains item registered ≡ true
        → may_activate c registered permitted present_types item available ≡ true
        → contains item.0 available ≡ true
    available_of item here may =
        admitted_item _ _ (all-contains _ item registered available-closed here) may

    Founded : List String → Type 0
    Founded s =
        (t : String)
        → contains t s ≡ true
        → (capability : Class) × (contains (t, capability) registered ≡ true)
          × (may_activate c registered permitted present_types (t, capability) s ≡ true)

    may_activate-weaken :
        (item : String × Class) (xs ys : List String)
        → Included xs ys
        → may_activate c registered permitted present_types item xs ≡ true
        → may_activate c registered permitted present_types item ys ≡ true
    may_activate-weaken item xs ys h k =
        let (p, dr) = and-true (contains item.0 permitted) _ k in
        let (d, r) = and-true (deps_present c (c.depends_on item.1) present_types) _ dr in
        and-intro _ _ p (and-intro _ _ d (requires_available-weaken (c.requires item.1) xs ys h r))

    nothing-Founded : Founded []
    unfolding Founded contains
    nothing-Founded t h = absurd (ground arith)

    make-Founded :
        (item : String × Class) (s : List String)
        → contains item registered ≡ true
        → may_activate c registered permitted present_types item s ≡ true
        → Founded s
        → Founded (item.0 ∷ s)
    unfolding Founded
    make-Founded item s here may f t there = elim (member_cons t item.0 s there) [
      | inl same ↦ (
        item.1,
        rw (sym same) here,
        may_activate-weaken (t, item.1) s (item.0 ∷ s) (later item.0 s) (rw (sym same) may),
      )
      | inr old ↦
          let (capability, x, y) = f t old in
          (capability, x, may_activate-weaken (t, capability) s (item.0 ∷ s) (later item.0 s) y)
    ]

    available_induction :
        (P : List String → Type 0)
        → ((item : String × Class) (s : List String)
            → contains item registered ≡ true
            → may_activate c registered permitted present_types item s ≡ true
            → P s
            → P (item.0 ∷ s))
        → P []
        → P available
    unfolding compute_available
    available_induction P step start =
        loop_induction (is_available c registered permitted present_types)
          (may_activate c registered permitted present_types)
          (make_available c registered permitted present_types) P (λ item. contains item registered)
          step (suc (length registered)) registered [] (each_member registered) start

    -- A capability is available exactly if it is registered and permitted, all the data points that it
    -- depends on are present, and all the capabilities that it requires are available.
    pub available-exact :
        (capability_id : String)
        → (contains capability_id (compute_available c registered permitted present_types) ≡ true)
          ↔ ((capability : Class) × (contains (capability_id, capability) registered ≡ true)
              × (may_activate c registered permitted present_types
                    (capability_id, capability)
                    (compute_available c registered permitted present_types)
                  ≡ true))
    unfolding Founded
    available-exact capability_id = (
      available_induction Founded make-Founded nothing-Founded capability_id,
      λ (capability, here, may). available_of (capability_id, capability) here may,
    )

  available-more :
      (permitted permitted' : List String) (present present' : List Class)
      → Included permitted permitted'
      → ((t : Class) → contains t present ≡ true → contains t present' ≡ true)
      → (item : String × Class) (s : List String) → contains item registered ≡ true
      → may_activate c registered permitted present item s ≡ true
      → Included s (compute_available c registered permitted' present')
      → Included (item.0 ∷ s) (compute_available c registered permitted' present')
  available-more permitted permitted' present present' p d item s here may f t there =
      let (x, yz) = and-true (contains item.0 permitted) _ may in
      let (y, z) = and-true (deps_present c (c.depends_on item.1) present) _ yz in
      let now = available_of permitted' present' item here (
        and-intro _ _ (p item.0 x) (
          and-intro _ _ (all-any_subclass_weaken c present present' (c.depends_on item.1) d y) (
            requires_available-weaken (c.requires item.1) s
              (compute_available c registered permitted' present') f z))) in
      elim (member_cons t item.0 s there) [ inl same ↦ rw (sym same) now | inr old ↦ f t old ]

  -- More data points and more permissions never take a capability away.
  pub available-monotone :
      (permitted permitted' : List String) (present present' : List Class) (capability_id : String)
      → Included permitted permitted'
      → ((t : Class) → contains t present ≡ true → contains t present' ≡ true)
      → contains capability_id (compute_available c registered permitted present) ≡ true
      → contains capability_id (compute_available c registered permitted' present') ≡ true
  available-monotone permitted permitted' present present' capability_id p d =
      available_induction permitted present
        (λ s. Included s (compute_available c registered permitted' present'))
        (λ item s here may f.
          available-more permitted permitted' present present' p d item s here may f)
        (nothing_in (compute_available c registered permitted' present')) capability_id
