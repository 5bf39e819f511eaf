-- ===== src/Fixpoint.antt =====
-- `changed = True; while changed: changed = False; for item in items: …`, the loop by which readiness,
-- availability and reachability are computed: a pass admits the items that are not done and may be
-- admitted, until a pass admits none.
use orcastork.Base.{
  and-true, length, ◌<◌, ◌≤◌, Bool, Bool-cases, List, [], all, and-intro, arith, false, if_false,
  if_true, if◌then◌else◌, inl, inr, not, suc, true, zero, ℕ, ◌||◌, ◌∙◌, ◌∷◌, ◌≡◌, refl,
}

all_parts :
    {A : Type 0} (p : A → Bool) (a : A) (items : List A)
    → all p (a ∷ items) ≡ true
    → (p a ≡ true) × (all p items ≡ true)
unfolding all
all_parts p a items h = and-true _ _ h

pub any_item : {A : Type 0} (items : List A) → all (λ _. true) items ≡ true
unfolding all
any_item [] = refl
any_item (a ∷ items) = any_item items

module _ {A S : Type 0} (done admits : A → S → Bool) (admit : A → S → S) where
  unfoldable pub pass : List A → S → Bool → S × Bool
  pass [] s changed = (s, changed)
  pass (a ∷ items) s changed =
      let skipped = pass items s changed in
      let admitted = pass items (admit a s) true in
      if done a s then skipped else if admits a s then admitted else skipped

  -- `fuel` rounds at most; one more than there are items is enough (`loop-closed`)
  unfoldable pub loop : ℕ → List A → S → S
  unfolding pass
  loop zero items s = s
  loop (suc fuel) items s =
      let (s', changed) = pass items s false in
      let rest = loop fuel items s' in if changed then rest else s'

  abbrev pub closed : List A → S → Bool
  closed items s = all (λ a. done a s || not (admits a s)) items

  abbrev undone : List A → S → ℕ
  undone [] s = 0
  undone (a ∷ items) s = if done a s then undone items s else suc (undone items s)

  pass_skip :
      (a : A) (items : List A) (s : S) (changed : Bool)
      → (done a s || not (admits a s)) ≡ true
      → pass (a ∷ items) s changed ≡ pass items s changed
  unfolding pass
  pass_skip a items s changed h = elim (Bool-cases (done a s)) [
    | inl d ↦ if_true (done a s) _ _ d
    | inr d ↦ if_false (done a s) _ _ d ∙ if_false (admits a s) _ _ (ground arith)
  ]

  pass_admit :
      (a : A) (items : List A) (s : S) (changed : Bool)
      → (done a s || not (admits a s)) ≡ false
      → pass (a ∷ items) s changed ≡ pass items (admit a s) true
  unfolding pass
  pass_admit a items s changed h =
      if_false (done a s) _ _ (ground arith) ∙ if_true (admits a s) _ _ (ground arith)

  closed_more :
      (a : A) (items : List A) (s : S)
      → (done a s || not (admits a s)) ≡ true
      → closed items s ≡ true
      → closed (a ∷ items) s ≡ true
  unfolding all
  closed_more a items s h k = and-intro _ _ h k

  -- A pass that reports no change has changed nothing, and has found nothing to admit.
  pass_quiet :
      (items : List A) (s : S) (changed : Bool)
      → (pass items s changed).1 ≡ false
      → (changed ≡ false) × ((pass items s changed).0 ≡ s) × (closed items s ≡ true)
  pass_quiet [] s changed h = unfold pass all in (h, refl, refl)
  pass_quiet (a ∷ items) s changed h = elim (Bool-cases (done a s || not (admits a s))) [
    | inl skip ↦
        let (c, e, k) = pass_quiet items s changed (rw (pass_skip a items s changed skip) at h) in
        rw (pass_skip a items s changed skip) (c, e, closed_more a items s skip k)
    | inr new ↦
        let (c, _, _) =
          pass_quiet items (admit a s) true (rw (pass_admit a items s changed new) at h) in
        absurd (ground arith)
  ]

  -- An invariant of the admissions of items that pass a test is an invariant of the loop.
  module _ (P : S → Type 0) (fits : A → Bool)
      (step : (a : A) (s : S) → fits a ≡ true → admits a s ≡ true → P s → P (admit a s)) where
    pass_induction :
        (items : List A) (s : S) (changed : Bool)
        → all fits items ≡ true
        → P s
        → P (pass items s changed).0
    pass_induction [] s changed f h = unfold pass in h
    pass_induction (a ∷ items) s changed f h =
        let (x, y) = all_parts fits a items f in
        elim (Bool-cases (done a s || not (admits a s))) [
          | inl skip ↦ rw (pass_skip a items s changed skip) (pass_induction items s changed y h)
          | inr new ↦
              rw (pass_admit a items s changed new)
                (pass_induction items (admit a s) true y (step a s x (ground arith) h))
        ]

    pub loop_induction :
        (fuel : ℕ) (items : List A) (s : S) → all fits items ≡ true → P s → P (loop fuel items s)
    unfolding loop
    loop_induction zero items s f h = h
    loop_induction (suc fuel) items s f h = elim (Bool-cases (pass items s false).1) [
      | inl more ↦
          rw
            (if_true (pass items s false).1 (loop fuel items (pass items s false).0)
              (pass items s false).0 more)
            (loop_induction fuel items (pass items s false).0 f (pass_induction items s false f h))
      | inr quiet ↦
          rw
            (if_false (pass items s false).1 (loop fuel items (pass items s false).0)
              (pass items s false).0 quiet)
            (pass_induction items s false f h)
    ]

  more_undone :
      (a : A) (items : List A) (s s' : S)
      → (done a s ≡ true → done a s' ≡ true)
      → undone items s' < undone items s
      → undone (a ∷ items) s' < undone (a ∷ items) s
  more_undone a items s s' keep h = ground (arith, keep)

  one_done :
      (a : A) (items : List A) (s s' : S)
      → done a s ≡ false
      → done a s' ≡ true
      → undone items s' ≤ undone items s
      → undone (a ∷ items) s' < undone (a ∷ items) s
  one_done a items s s' before after h = ground arith

  module _ (admitted : (a : A) (s : S) → done a (admit a s) ≡ true)
      (kept : (a b : A) (s : S) → done b s ≡ true → done b (admit a s) ≡ true) where
    pass-kept :
        (b : A) (items : List A) (s : S) (changed : Bool)
        → done b s ≡ true
        → done b (pass items s changed).0 ≡ true
    pass-kept b items s changed h =
        pass_induction (λ s. done b s ≡ true) (λ _. true) (λ a s _ _ k. kept a b s k) items s
          changed (any_item items) h

    undone-le :
        (items : List A) (s s' : S)
        → ((b : A) → done b s ≡ true → done b s' ≡ true)
        → undone items s' ≤ undone items s
    undone-le [] s s' h = omega arith
    undone-le (a ∷ items) s s' h = ground (arith, undone-le items s s' h, h a)

    -- A pass that admits something leaves fewer items undone.
    pass-fewer :
        (items : List A) (s : S)
        → (pass items s false).1 ≡ true
        → undone items (pass items s false).0 < undone items s
    pass-fewer [] s h = unfold pass in absurd (ground arith)
    pass-fewer (a ∷ items) s h = elim (Bool-cases (done a s || not (admits a s))) [
      | inl skip ↦ rw (pass_skip a items s false skip) (
          more_undone a items s (pass items s false).0 (pass-kept a items s false)
            (pass-fewer items s (rw (pass_skip a items s false skip) at h)))
      | inr new ↦ rw (pass_admit a items s false new) (
          one_done a items s (pass items (admit a s) true).0 (ground arith)
            (pass-kept a items (admit a s) true (admitted a s))
            (undone-le items s (pass items (admit a s) true).0
              (λ b d. pass-kept b items (admit a s) true (kept a b s d))))
    ]

    enough_rounds :
        (fuel : ℕ) (items : List A) (s : S)
        → undone items s < fuel
        → closed items (loop fuel items s) ≡ true
    unfolding loop
    enough_rounds zero items s h = absurd (omega arith)
    enough_rounds (suc fuel) items s h = elim (Bool-cases (pass items s false).1) [
      | inl more ↦
          rw
            (if_true (pass items s false).1 (loop fuel items (pass items s false).0)
              (pass items s false).0 more)
            (enough_rounds fuel items (pass items s false).0
              (omega (arith, pass-fewer items s more)))
      | inr quiet ↦
          let (_, same, k) = pass_quiet items s false quiet in
          rw
            (
              if_false (pass items s false).1 (loop fuel items (pass items s false).0)
                  (pass items s false).0 quiet,
              same,
            )
            k
    ]

    undone-length : (items : List A) (s : S) → undone items s ≤ length items
    undone-length [] s = omega arith
    undone-length (a ∷ items) s = ground (arith, undone-length items s)

    -- As many rounds as there are items, and one more, leave nothing to admit.
    pub loop-closed :
        (items : List A) (s : S) → closed items (loop (suc (length items)) items s) ≡ true
    loop-closed items s =
        enough_rounds (suc (length items)) items s (omega (arith, undone-length items s))
