-- ===== src/Durable/Sets.antt =====
-- Sets and contribution marks: a repeated call counts nothing twice.
use orcastork.Base.Dict.{Dict, get-put_other, get-put_self, put, get}
use orcastork.Base.{
  ap, ◌∙◌, Bool-cases, Error, Result, [], beq_refl, eq_of_beq, if_false, inl, inr, length,
  le→ltb_false, lt→ltb, ok, raise, refl, stale_epoch, ℕ, ◌<◌, ◌==◌, ◌∷◌, ◌≤◌, List, String, arith,
  contains, if_true, true, ◌≡◌, pair_eq, string_eq,
}
use orcastork.Durable.{
  DurableState, guard_epoch, or_empty, with_member, add_to_set, mark_contribution,
  clear_contribution, upsert, replace, document_scope,
}
use native.Mathlib.Decide.{dec_lt}
use orcastork.Durable.Versions.{
  scope_epoch, under, Call, upserts, adds, marks, clears, perform, perform_all,
}

abbrev pub members : String × (String × String) → DurableState → List String
members place s = or_empty (get place s.sets)

contains_later :
    (v w : String) (xs : List String) → contains v xs ≡ true → contains v (w ∷ xs) ≡ true
unfolding contains
contains_later v w xs h = ground arith

contains_now : (v : String) (xs : List String) → contains v (v ∷ xs) ≡ true
unfolding contains
contains_now v xs = ground (arith, beq_refl v)

not_ok : (e : Error) (n : ℕ) → ¬ ◌≡◌ {A = Result ℕ} (raise e) (ok n)
not_ok e n h = absurd (ground arith)

ok_count : (m n : ℕ) → ◌≡◌ {A = Result ℕ} (ok m) (ok n) → n ≡ m
ok_count m n h = ground arith

with_member-keeps :
    (v w : String) (xs : List String) → contains v xs ≡ true → contains v (with_member w xs) ≡ true
with_member-keeps v w xs h = elim (Bool-cases (contains w xs)) [
  | inl old ↦ rw (if_true (contains w xs) xs (w ∷ xs) old) h
  | inr new ↦ rw (if_false (contains w xs) xs (w ∷ xs) new) (contains_later v w xs h)
]

with_member-has : (v : String) (xs : List String) → contains v (with_member v xs) ≡ true
with_member-has v xs = elim (Bool-cases (contains v xs)) [
  | inl old ↦ rw (if_true (contains v xs) xs (v ∷ xs) old) old
  | inr new ↦ rw (if_false (contains v xs) xs (v ∷ xs) new) (contains_now v xs)
]

-- The two ways that `add_to_set` can go.
add_stale :
    (table key field value : String) (epoch : ℕ) (s : DurableState)
    → epoch < scope_epoch table key s
    → add_to_set table key field value epoch s ≡ (raise stale_epoch, s)
unfolding add_to_set guard_epoch
add_stale table key field value epoch s h = rw (lt→ltb epoch (scope_epoch table key s) h) refl

abbrev added : String → String × (String × String) → DurableState → List String
added value place s = with_member value (members place s)

add_live :
    (table key field value : String) (epoch : ℕ) (s : DurableState)
    → scope_epoch table key s ≤ epoch
    → add_to_set table key field value epoch s ≡ (
      ok (length (added value (table, (key, field)) s)),
      record (under (document_scope table key) epoch s) {
        sets = put (table, (key, field)) (added value (table, (key, field)) s) s.sets;
      },
    )
unfolding add_to_set guard_epoch
add_live table key field value epoch s h = rw (le→ltb_false epoch (scope_epoch table key s) h) refl

put-members :
    (v value : String) (place place' : String × (String × String))
    (sets : Dict (String × (String × String)) (List String))
    → contains v (or_empty (get place sets)) ≡ true
    → contains v
        (or_empty (get place (put place' (with_member value (or_empty (get place' sets))) sets)))
      ≡ true
put-members v value place place' sets h = elim (Bool-cases (place' == place)) [
  | inr ne ↦
      rw (get-put_other place' place (with_member value (or_empty (get place' sets))) sets ne) h
  | inl same ↦
      let e = eq_of_beq place' place same in
      rw (e, get-put_self place (with_member value (or_empty (get place sets))) sets)
        (with_member-keeps v value (or_empty (get place sets)) h)
]

-- A call never takes a member out of a set.
perform-members :
    (v : String) (place : String × (String × String)) (c : Call) (s : DurableState)
    → contains v (members place s) ≡ true
    → contains v (members place (perform c s)) ≡ true
unfolding perform guard_epoch upsert replace mark_contribution clear_contribution
perform-members v place (upserts t k document expected epoch status at) s h = ground arith
perform-members v place (adds t k field value epoch) s h = elim (dec_lt epoch (scope_epoch t k s)) [
  | yes p ↦ rw (add_stale t k field value epoch s p, perform) h
  | no p ↦
      rw (add_live t k field value epoch s (omega arith), perform)
        (put-members v value place (t, (k, field)) s.sets h)
]
perform-members v place (marks session_id operator_id epoch) s h = ground arith
perform-members v place (clears session_id operator_id) s h = h

perform_all-members :
    (v : String) (place : String × (String × String)) (cs : List Call) (s : DurableState)
    → contains v (members place s) ≡ true
    → contains v (members place (perform_all cs s)) ≡ true
unfolding perform_all
perform_all-members v place [] s h = h
perform_all-members v place (c ∷ cs) s h =
    perform_all-members v place cs (perform c s) (perform-members v place c s h)

module _ (table key field value : String) where
  abbrev pub held : DurableState → List String
  held = members (table, (key, field))

  add_ok :
      (epoch : ℕ) (s : DurableState) (n : ℕ)
      → (add_to_set table key field value epoch s).0 ≡ ok n
      → (n ≡ length (added value (table, (key, field)) s))
        × (held (add_to_set table key field value epoch s).1 ≡ added value (table, (key, field)) s)
  add_ok epoch s n h = elim (dec_lt epoch (scope_epoch table key s)) [
    | yes p ↦ absurd (not_ok _ n (rw (add_stale table key field value epoch s p) at h))
    | no p ↦ (
      ok_count _ n (rw (add_live table key field value epoch s (omega arith)) at h),
      rw
          (
            add_live table key field value epoch s (omega arith),
            get-put_self (table, (key, field)) (added value (table, (key, field)) s) s.sets,
          )
          refl,
    )
  ]

  repeated :
      (epoch : ℕ) (s : DurableState) (m : ℕ)
      → contains value (held s) ≡ true
      → (add_to_set table key field value epoch s).0 ≡ ok m
      → (held (add_to_set table key field value epoch s).1 ≡ held s) × (m ≡ length (held s))
  repeated epoch s m there k =
      let (c, e) = add_ok epoch s m k in
      let same = if_true (contains value (held s)) (held s) (value ∷ held s) there in
      (e ∙ same, c ∙ ap length same)

  -- Set-add is idempotent: after an add of a value that succeeded, and any calls, another add of it to
  -- the same set that succeeds leaves the set's members as they are, and returns their number.
  pub add_again :
      (epoch epoch' : ℕ) (cs : List Call) (s : DurableState) (n m : ℕ)
      → let s' = perform_all cs (add_to_set table key field value epoch s).1 in
        (add_to_set table key field value epoch s).0 ≡ ok n
        → (add_to_set table key field value epoch' s').0 ≡ ok m
        → (held (add_to_set table key field value epoch' s').1 ≡ held s') × (m ≡ length (held s'))
  add_again epoch epoch' cs s n m h k =
      repeated epoch' (perform_all cs (add_to_set table key field value epoch s).1) m
        (perform_all-members value (table, (key, field)) cs
          (add_to_set table key field value epoch s).1
          (rw ((add_ok epoch s n h).1) (with_member-has value (held s))))
        k
