-- ===== src/Store/Invariant.antt =====
-- The stored entries stand under their identities, once each, with stamps in order below the
-- session's revision, whatever is written.
use orcastork.Base.Dict.{Dict, get, get-put, put}
use orcastork.Base.{
  true, Bool, Option-cases, false, is_empty, ltb, ◌&&◌, ◌||◌, Bool-cases, List, [], arith, inl, inr,
  none, refl, some, sym, ℕ, ◌+◌, ◌==◌, ◌∙◌, ◌∷◌, ◌≡◌, ◌≤◌,
}
use mathlib.Core.Path.{subst}
use orcastork.DataPoint.{
  DataPoint, Key, key_eq, key_beq_iff, identity_key, reobserved, identity_key-reobserved,
}
use orcastork.Store.{
  Entry, SessionState, added_stamp, merge_one, merge_all, merge_batch, land_added, land_updated,
  land_batch,
}
use orcastork.Store.Fencing.{Mutation, write_points, apply_points, run}

pub record IsEntry (rev : ℕ) (k : Key) (e : Entry) : Type 0 where
  pub keyed : identity_key e.data_point ≡ k
  pub ordered : e.added_rev ≤ e.updated_rev
  pub bounded : e.updated_rev ≤ rev

abbrev pub IsStored : ℕ → Dict Key Entry → Type 0
IsStored rev [] = Unit
IsStored rev ((k, e) ∷ entries) = IsEntry rev k e × (get k entries ≡ none) × IsStored rev entries

abbrev pub IsValid : SessionState → Type 0
IsValid s = IsStored s.revision s.entries

pub put-IsStored :
    (rev : ℕ) (k : Key) (e : Entry) (entries : Dict Key Entry)
    → IsEntry rev k e
    → IsStored rev entries
    → IsStored rev (put k e entries)
unfolding put get
put-IsStored rev k e [] h s = (h, refl, tt)
put-IsStored rev k e ((j, f) ∷ entries) h s = elim (Bool-cases (j == k)) [
  | inl p ↦ rw p (subst (λ i. IsEntry rev i e) (sym ((key_beq_iff j k).0 p)) h, s.1, s.2)
  | inr p ↦ rw p (
    s.0,
    get-put k j e entries ∙ ground (arith, s.1, key_beq_iff j k, key_beq_iff k j),
    put-IsStored rev k e entries h s.2,
  )
]

pub get-IsEntry :
    (rev : ℕ) (k : Key) (e : Entry) (entries : Dict Key Entry)
    → IsStored rev entries
    → get k entries ≡ some e
    → IsEntry rev k e
unfolding get
get-IsEntry rev k e [] s h = cc
get-IsEntry rev k e ((j, f) ∷ entries) s h = elim (Bool-cases (j == k)) [
  | inl p ↦
      subst (λ i. IsEntry rev i e) ((key_beq_iff j k).0 p)
        (subst (λ g. IsEntry rev j g) (ground arith) s.0)
  | inr p ↦ get-IsEntry rev k e entries s.2 (ground arith)
]

IsStored-suc :
    (rev : ℕ) (entries : Dict Key Entry) → IsStored rev entries → IsStored (rev + 1) entries
IsStored-suc rev [] s = tt
IsStored-suc rev ((k, e) ∷ entries) s = (
  record { keyed = s.0.keyed; ordered = s.0.ordered; bounded = omega arith },
  s.1,
  IsStored-suc rev entries s.2,
)

freshened :
    (rev : ℕ) (k : Key) (at : ℕ) (e : Entry)
    → IsEntry rev k e
    → IsEntry rev k (record e { data_point = reobserved at e.data_point; updated_rev = rev })
freshened rev k at e h = record {
  keyed = identity_key-reobserved at e.data_point ∙ h.keyed;
  ordered = omega (arith, h.ordered, h.bounded);
  bounded = omega arith;
}

merge_one-IsStored :
    (rev : ℕ) (entries : Dict Key Entry) (d : DataPoint)
    → IsStored rev entries
    → IsStored rev (merge_one rev entries d).0
unfolding merge_one
merge_one-IsStored rev entries d s = elim (Option-cases (get (identity_key d) entries)) [
  | inl new ↦
      rw (new, merge_one)
        (put-IsStored rev (identity_key d)
          (record { data_point = d; added_rev = rev; updated_rev = rev }) entries
          (record { keyed = refl; ordered = omega arith; bounded = omega arith }) s)
  | inr (e, seen) ↦ elim (Bool-cases (ltb e.data_point.last_retrieved d.last_retrieved)) [
    | inl newer ↦
        rw (seen, newer, merge_one)
          (put-IsStored rev (identity_key d)
            (record e { data_point = reobserved d.last_retrieved e.data_point; updated_rev = rev })
            entries
            (freshened rev (identity_key d) d.last_retrieved e
              (get-IsEntry rev (identity_key d) e entries s seen))
            s)
    | inr older ↦ rw (seen, older, merge_one) s
  ]
]

merge_all-IsStored :
    (rev : ℕ) (entries : Dict Key Entry) (changed : Bool) (ds : List DataPoint)
    → IsStored rev entries
    → IsStored rev (merge_all rev entries changed ds).0
unfolding merge_all
merge_all-IsStored rev entries changed [] s = s
merge_all-IsStored rev entries changed (d ∷ ds) s =
    merge_all-IsStored rev (merge_one rev entries d).0 (changed || (merge_one rev entries d).1) ds
      (merge_one-IsStored rev entries d s)

merge_one-same :
    (rev : ℕ) (entries : Dict Key Entry) (d : DataPoint)
    → (merge_one rev entries d).1 ≡ false
    → (merge_one rev entries d).0 ≡ entries
unfolding merge_one
merge_one-same rev entries d h = ground arith

-- A batch that reports no change has changed nothing.
pub merge_all-same :
    (rev : ℕ) (entries : Dict Key Entry) (changed : Bool) (ds : List DataPoint)
    → (merge_all rev entries changed ds).1 ≡ false
    → (changed ≡ false) × ((merge_all rev entries changed ds).0 ≡ entries)
unfolding merge_all
merge_all-same rev entries changed [] h = (h, refl)
merge_all-same rev entries changed (d ∷ ds) h =
    let (flag, same) =
      merge_all-same rev (merge_one rev entries d).0 (changed || (merge_one rev entries d).1) ds
        h in
    let quiet : (merge_one rev entries d).1 ≡ false = ground arith in
    (ground arith, same ∙ merge_one-same rev entries d quiet)

merge_batch-IsValid :
    (ds : List DataPoint) (s : SessionState) → IsValid s → IsValid (merge_batch ds s).1
unfolding merge_batch
merge_batch-IsValid ds s h = elim (Bool-cases (merge_all (s.revision + 1) s.entries false ds).1) [
  | inl new ↦
      rw new (
        merge_all-IsStored (s.revision + 1) s.entries false ds
          (IsStored-suc s.revision s.entries h))
  | inr old ↦ rw (old, (merge_all-same (s.revision + 1) s.entries false ds old).1) h
]

land_added-IsStored :
    (rev : ℕ) (entries : Dict Key Entry) (ds : List DataPoint)
    → IsStored rev entries
    → IsStored rev (land_added rev entries ds)
unfolding land_added
land_added-IsStored rev entries [] s = s
land_added-IsStored rev entries (d ∷ ds) s =
    land_added-IsStored rev
      (put (identity_key d) (record { data_point = d; added_rev = rev; updated_rev = rev }) entries)
      ds
      (put-IsStored rev (identity_key d)
        (record { data_point = d; added_rev = rev; updated_rev = rev }) entries
        (record { keyed = refl; ordered = omega arith; bounded = omega arith }) s)

added_stamp-le :
    (rev : ℕ) (k : Key) (entries : Dict Key Entry)
    → IsStored rev entries
    → added_stamp (get k entries) ≤ rev
added_stamp-le rev k entries s = elim (Option-cases (get k entries)) [
  | inl new ↦ rw new (omega arith)
  | inr (e, seen) ↦
      let h = get-IsEntry rev k e entries s seen in rw seen (omega (arith, h.ordered, h.bounded))
]

land_updated-IsStored :
    (rev : ℕ) (entries : Dict Key Entry) (ds : List DataPoint)
    → IsStored rev entries
    → IsStored rev (land_updated rev entries ds)
unfolding land_updated
land_updated-IsStored rev entries [] s = s
land_updated-IsStored rev entries (d ∷ ds) s =
    let e : Entry = record {
      data_point = d;
      added_rev = added_stamp (get (identity_key d) entries);
      updated_rev = rev;
    } in
    land_updated-IsStored rev (put (identity_key d) e entries) ds (
      put-IsStored rev (identity_key d) e entries
        (record {
          keyed = refl;
          ordered = added_stamp-le rev (identity_key d) entries s;
          bounded = omega arith;
        })
        s)

pub land_batch-IsValid :
    (added updated : List DataPoint) (s : SessionState)
    → IsValid s
    → IsValid (land_batch added updated s).1
unfolding land_batch
land_batch-IsValid added updated s h = elim (Bool-cases (is_empty added && is_empty updated)) [
  | inl none_at_all ↦ rw none_at_all h
  | inr some_left ↦ rw some_left (
      land_updated-IsStored (s.revision + 1) (land_added (s.revision + 1) s.entries added) updated (
        land_added-IsStored (s.revision + 1) s.entries added (IsStored-suc s.revision s.entries h)))
]

IsValid-of_same :
    (s t : SessionState) → t.revision ≡ s.revision → t.entries ≡ s.entries → IsValid s → IsValid t
IsValid-of_same s t p q h = rw (p, q) h

-- The mutations that write no points.
abbrev is_mark : Mutation → Bool
is_mark (write_points ds) = false
is_mark (apply_points added updated) = false
is_mark _ = true

run-mark :
    (m : Mutation) (epoch : ℕ) (s : SessionState)
    → is_mark m ≡ true
    → ((run m epoch s).1.revision ≡ s.revision) × ((run m epoch s).1.entries ≡ s.entries)
unfolding run
run-mark (write_points ds) epoch s h = cc
run-mark (apply_points added updated) epoch s h = cc
run-mark _ epoch s h = ground arith

-- Every mutation, accepted or rejected, keeps the entries of a session well formed: each under the
-- identity of its point, no identity twice, first stamped no later than last, and no stamp above the
-- session's revision.
pub run-IsValid :
    (m : Mutation) (epoch : ℕ) (s : SessionState) → IsValid s → IsValid (run m epoch s).1
unfolding run
run-IsValid (write_points ds) epoch s h = elim (Bool-cases (ltb epoch s.max_epoch)) [
  | inl stale ↦ rw stale h
  | inr current ↦ rw current (merge_batch-IsValid ds (record s { max_epoch = epoch }) h)
]
run-IsValid (apply_points added updated) epoch s h = elim (Bool-cases (ltb epoch s.max_epoch)) [
  | inl stale ↦ rw stale h
  | inr current ↦ rw current (land_batch-IsValid added updated (record s { max_epoch = epoch }) h)
]
run-IsValid m epoch s h =
    let (p, q) = run-mark m epoch s refl in IsValid-of_same s (run m epoch s).1 p q h
