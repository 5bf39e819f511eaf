-- ===== src/Availability/Layers.antt =====
-- The order of activations: a base before its layers.
use orcastork.Base.{
  Bool, false, ◌&&◌, all-contains, nat_beq, is_some, ap, ◌∙◌, all, filter, is_empty, length, not,
  contains, none, all_weaken, continue, raise, ok, sym, refl, Option, zero, suc, and-true, Result,
  Bool-cases, arith, inl, inr, ◌==◌, ℕ, Error, and-intro, any, any_of_contains, contains_of_any,
  eq_iff, true, List, String, [], some, ◌∷◌, ◌≡◌, string_eq,
}
use orcastork.Availability.Refresh.{
  refresh, is_pending, available_ids, exposed, Activating, fail, outcome_of, built, activate_class,
  activate_one, activate_each, activate_pending, may_follow, requires_of, Activator, Activation,
}
use orcastork.Catalog.{Catalog}
use orcastork.DataPoint.{DataPoint, Class}
use mathlib.Core.Path.{subst}
use orcastork.Availability.Activation.{record_failure}
use orcastork.Base.Dict.{get-put, put, Dict, get, keys}
use orcastork.Classes.{Classes}
use orcastork.Availability.{Registered, is_sub, requires_available}

module _ (c : Classes) (registered : Registered) where
  -- More capabilities satisfy more requirements.
  requires_weaken :
      (requires : List Class) (xs ys : List String)
      → ((i : String) → contains i xs ≡ true → contains i ys ≡ true)
      → requires_available c requires xs registered ≡ true
      → requires_available c requires ys registered ≡ true
  unfolding all
  requires_weaken [] xs ys h k = refl
  requires_weaken (r ∷ requires) xs ys h k =
      let (a, b) = and-true (any (λ i. is_sub c (get i registered) r) xs) _ k in
      let (i, here, sub) = contains_of_any (λ i. is_sub c (get i registered) r) xs a in
      and-intro _ _ (any_of_contains (λ i. is_sub c (get i registered) r) i ys (h i here) sub)
        (requires_weaken requires xs ys h b)

  -- `is_layered`, for one activated capability.
  abbrev Layered : Dict String Class → Type 0
  Layered d =
      (i : String) (capability : Class)
      → get i d ≡ some capability
      → (get i registered ≡ some capability)
        × (requires_available c (c.requires capability) (keys d) registered ≡ true)

  contains-keys :
      {V : Type 0} (i : String) (d : Dict String V) → contains i (keys d) ≡ is_some (get i d)
  unfolding contains get
  contains-keys i [] = refl
  contains-keys i ((j, w) ∷ d) = ground (arith, eq_iff i j, eq_iff j i, contains-keys i d)

  abbrev Included : List String → List String → Type 0
  Included xs ys = (i : String) → contains i xs ≡ true → contains i ys ≡ true

  keys-put :
      (i : String) (capability : Class) (d : Dict String Class)
      → Included (keys d) (keys (put i capability d))
  keys-put i capability d j h =
      ground
        (arith, contains-keys j d, contains-keys j (put i capability d), get-put i j capability d)

  put-Layered :
      (i : String) (capability : Class) (d : Dict String Class)
      → get i registered ≡ some capability
      → requires_available c (c.requires capability) (keys d) registered ≡ true
      → Layered d
      → Layered (put i capability d)
  put-Layered i capability d r q l j other h = elim (Bool-cases (i == j)) [
    | inl same ↦
        let e : capability ≡ other = ground (arith, get-put i j capability d) in
        (
          ground (arith, eq_iff i j),
          subst
              (λ x.
                requires_available c (c.requires x) (keys (put i capability d)) registered ≡ true)
              e
              (requires_weaken (c.requires capability) (keys d) (keys (put i capability d))
                (keys-put i capability d) q),
        )
    | inr new ↦
        let (e, k) = l j other (ground (arith, get-put i j capability d)) in
        (
          e,
          requires_weaken (c.requires other) (keys d) (keys (put i capability d))
              (keys-put i capability d) k,
        )
  ]

  abbrev is_layered_at : Dict String Class → Option Class → Option Class → Bool
  is_layered_at d none _ = true
  is_layered_at d (some capability) none = false
  is_layered_at d (some capability) (some other) =
      nat_beq capability other && requires_available c (c.requires capability) (keys d) registered

  -- Every activated capability is a registered one, and each capability that it requires is activated.
  abbrev pub is_layered : Dict String Class → Bool
  is_layered d = all (λ i. is_layered_at d (get i d) (get i registered)) (keys d)

  layered_at :
      (d : Dict String Class) (o o' : Option Class) (capability : Class)
      → is_layered_at d o o' ≡ true
      → o ≡ some capability
      → (o' ≡ some capability)
        × (requires_available c (c.requires capability) (keys d) registered ≡ true)
  layered_at d none o' capability h k = absurd (ground arith)
  layered_at d (some x) none capability h k = absurd (ground arith)
  layered_at d (some x) (some y) capability h k =
      let (a, b) = and-true (nat_beq x y) _ h in
      let e : x ≡ capability = ground arith in
      (
        ground arith,
        subst (λ z. requires_available c (c.requires z) (keys d) registered ≡ true) e b,
      )

  at_layered :
      (d : Dict String Class) (o o' : Option Class)
      → ((capability : Class)
          → o ≡ some capability
          → (o' ≡ some capability)
            × (requires_available c (c.requires capability) (keys d) registered ≡ true))
      → is_layered_at d o o' ≡ true
  at_layered d none o' h = refl
  at_layered d (some x) none h = absurd (ground (arith, (h x refl).0))
  at_layered d (some x) (some y) h = let (a, b) = h x refl in and-intro _ _ (ground arith) b

  to_layered : (d : Dict String Class) → is_layered d ≡ true → Layered d
  to_layered d h i capability k =
      layered_at d (get i d) (get i registered) capability
        (all-contains (λ j. is_layered_at d (get j d) (get j registered)) i (keys d) h
          (contains-keys i d ∙ ap is_some k))
        k

  every : (p : String → Bool) (is : List String) → ((i : String) → p i ≡ true) → all p is ≡ true
  unfolding all
  every p [] h = refl
  every p (i ∷ is) h = and-intro _ _ (h i) (every p is h)

  from_Layered : (d : Dict String Class) → Layered d → is_layered d ≡ true
  from_Layered d h =
      every (λ j. is_layered_at d (get j d) (get j registered)) (keys d)
        (λ i. at_layered d (get i d) (get i registered) (h i))

  from_included : (xs ys : List String) → Included xs ys → all (λ i. contains i ys) xs ≡ true
  unfolding all contains
  from_included [] ys h = refl
  from_included (i ∷ is) ys h =
      and-intro _ _ (h i (ground (arith, eq_iff i i)))
        (from_included is ys (λ j k. h j (ground arith)))

-- What a refresh does to the activated capabilities.
module _ {S : Type 0} (c : Classes) (a : Activation S) where
  abbrev Grows : Dict String Class → Dict String Class → Type 0
  Grows d d' =
      Layered c a.registered d
      → Layered c a.registered d' × Included c a.registered (keys d) (keys d')

  Grows-not : (d : Dict String Class) → Grows d d
  Grows-not d l = (l, λ i h. h)

  fail_keeps :
      (i : String) (e : Error) (now : ℕ) (s : Activator × S)
      → (fail c a i e now s).1.0.activated ≡ s.0.activated
  unfolding fail record_failure
  fail_keeps i e now s = ground arith

  module _ (view : List DataPoint) (catalog : Catalog) (now : ℕ) where
    abbrev held : {A : Type 0} → Result A × (Activator × S) → Dict String Class
    held r = r.1.0.activated

    class-Grows :
        (i : String) (capability : Class) (activated : Option Error) (s : Activator × S)
        → get i a.registered ≡ some capability
        → requires_available c (c.requires capability) (keys s.0.activated) a.registered ≡ true
        → Grows s.0.activated (held (outcome_of c a i capability activated now s))
    class-Grows i capability none (v, s) r q l = (
      put-Layered c a.registered i capability v.activated r q l,
      keys-put c a.registered i capability v.activated,
    )
    class-Grows i capability (some e) s r q l =
        subst (Grows s.0.activated) (sym (fail_keeps i e now s)) (Grows-not s.0.activated) l

    built-Grows :
        (i : String) (capability : Class) (constructed activated : Option Error) (s : Activator × S)
        → get i a.registered ≡ some capability
        → requires_available c (c.requires capability) (keys s.0.activated) a.registered ≡ true
        → Grows s.0.activated
            (held (built c a constructed (outcome_of c a i capability activated now) s))
    built-Grows i capability none activated s r q = class-Grows i capability activated s r q
    built-Grows i capability (some e) activated s r q = Grows-not s.0.activated

    one-Grows :
        (i : String) (o : Option Class) (s : Activator × S)
        → get i a.registered ≡ o
        → requires_available c
            (requires_of c a view catalog now o)
            (keys s.0.activated)
            a.registered
          ≡ true
        → Grows s.0.activated (held (activate_class c a view catalog now i o s))
    one-Grows i none s r q = Grows-not s.0.activated
    one-Grows i (some capability) s r q = built-Grows i capability (a.construct capability) _ s r q

    -- A list of capabilities that may all follow.
    abbrev Follow : Dict String Class → List String → Type 0
    Follow d ids =
        all
          (λ i.
            requires_available c (requires_of c a view catalog now (get i a.registered)) (keys d)
              a.registered)
          ids
        ≡ true

    Follow-weaken :
        (d d' : Dict String Class) (ids : List String)
        → Included c a.registered (keys d) (keys d')
        → Follow d ids
        → Follow d' ids
    Follow-weaken d d' ids h = all_weaken _ _ ids (λ i.
        requires_weaken c a.registered (requires_of c a view catalog now (get i a.registered))
          (keys d) (keys d') h)

    Grows-trans :
        (d e f : Dict String Class)
        → Grows d e
        → (Included c a.registered (keys d) (keys e) → Grows e f)
        → Grows d f
    Grows-trans d e f g h l = let (m, p) = g l in let (n, q) = h p m in (n, λ i k. q i (p i k))

    then-Grows :
        {A : Type 0} (d : Dict String Class) (r : Result (Unit {0}) × (Activator × S))
        (next : Activating c a A)
        → Grows d (held r)
        → (Included c a.registered (keys d) (keys (held r)) → Grows (held r) (held (next r.1)))
        → Grows d (held (continue r.0 (λ _. next) r.1))
    then-Grows d (ok _, s) next g h = Grows-trans d s.0.activated (held (next s)) g h
    then-Grows d (raise e, s) next g h = g

    each-Grows :
        (ids : List String) (s : Activator × S)
        → Follow s.0.activated ids
        → Grows s.0.activated (held (activate_each c a view catalog now ids s))
    unfolding activate_each activate_one all
    each-Grows [] s h = Grows-not s.0.activated
    each-Grows (i ∷ ids) s h =
        let (x, y) = and-true (may_follow c a view catalog now s.0 i) _ h in
        then-Grows s.0.activated (activate_one c a view catalog now i s)
          (activate_each c a view catalog now ids) (one-Grows i (get i a.registered) s refl x)
          (λ more.
            each-Grows ids (activate_one c a view catalog now i s).1
              (Follow-weaken s.0.activated _ ids more y))

    filter_follows :
        (v : Activator) (ids : List String)
        → Follow v.activated (filter (may_follow c a view catalog now v) ids)
    unfolding all filter
    filter_follows v [] = refl
    filter_follows v (i ∷ ids) = elim (Bool-cases (may_follow c a view catalog now v i)) [
      | inl now ↦ rw (now) (and-intro _ _ now (filter_follows v ids))
      | inr later ↦ rw (later) (filter_follows v ids)
    ]

    abbrev ready : Activator → List String → List String
    ready v pending = filter (may_follow c a view catalog now v) pending

    abbrev others : Activator → List String → List String
    others v pending = filter (λ i. not (contains i (ready v pending))) pending

    pending-Grows :
        (fuel : ℕ) (pending : List String) (s : Activator × S)
        → Grows s.0.activated (held (activate_pending c a view catalog now fuel pending s))
    unfolding activate_pending
    pending-Grows zero pending s = Grows-not s.0.activated
    pending-Grows (suc fuel) pending s = elim (Bool-cases (is_empty (ready s.0 pending))) [
      | inl stuck ↦ rw (stuck) (Grows-not s.0.activated)
      | inr going ↦ rw (going) (
          then-Grows s.0.activated (activate_each c a view catalog now (ready s.0 pending) s)
            (activate_pending c a view catalog now fuel (others s.0 pending))
            (each-Grows (ready s.0 pending) s (filter_follows s.0 pending))
            (λ _.
              pending-Grows fuel (others s.0 pending)
                (activate_each c a view catalog now (ready s.0 pending) s).1))
    ]

    after_pending :
        (d : Dict String Class) (r : Result (Unit {0}) × (Activator × S))
        (next : Activator × S → Dict String Class)
        → Grows d (held r)
        → Grows d (held (continue r.0 (λ _ t. (ok (next t), t)) r.1))
    after_pending d (ok _, s) next g = g
    after_pending d (raise e, s) next g = g

    refresh-Grows :
        (s : Activator × S) → Grows s.0.activated (held (refresh c a view catalog now s))
    unfolding refresh
    refresh-Grows s =
        let pending =
          filter (is_pending c a view catalog now s.0) (available_ids c a view catalog now) in
        after_pending s.0.activated
          (activate_pending c a view catalog now (length pending) pending s)
          (λ t. exposed c a view catalog now t.0 (available_ids c a view catalog now))
          (pending-Grows (length pending) pending s)

    -- Whatever the constructors, the activations and the callback of a failure do, a refresh that starts
    -- with each activated capability registered, and what it requires activated, ends so, also when it
    -- raises; and what was activated stays activated.
    pub refresh-layered :
        (s : Activator × S)
        → is_layered c a.registered s.0.activated ≡ true
        → (is_layered c a.registered (refresh c a view catalog now s).1.0.activated ≡ true)
          × (all
                (λ i. contains i (keys (refresh c a view catalog now s).1.0.activated))
                (keys s.0.activated)
              ≡ true)
    refresh-layered s h =
        let (l, g) = refresh-Grows s (to_layered c a.registered s.0.activated h) in
        (from_Layered c a.registered _ l, from_included c a.registered _ _ g)
