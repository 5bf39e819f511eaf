-- ===== src/Mirror/Aligned.antt =====
-- The local entries and the stored ones, side by side: the same identities in the same order, the
-- same points, and stamps that no question from the rehydration point on can tell apart.
use orcastork.Base.Dict.{
  has-cons_self, has-cons_weaken, has-put_weaken, Dict, get, has, put, values,
}
use orcastork.Base.{
  arith, is_some, Bool-cases, Option, [], ap, inl, inr, ltb, none, ok, refl, some, true, ℕ, ◌==◌,
  ◌∷◌, ◌≡◌, ◌≤◌,
}
use orcastork.DataPoint.{DataPoint, Key, key_eq}
use orcastork.Store.{Entry, land_added, land_updated}
use orcastork.Store.Merge.{IsKeyed}
use orcastork.Mirror.{MirrorEntry, stamp_added, stamp_updated}
use orcastork.Mirror.Resolve.{point_of, local_point, SamePoints}

pub record EntryAgrees (at : ℕ) (m : MirrorEntry) (e : Entry) : Type 0 where
  pub points : m.data_point ≡ e.data_point
  pub added_stamps : (since : ℕ) → at ≤ since → ltb since m.added_rev ≡ ltb since e.added_rev
  pub updated_stamps : (since : ℕ) → at ≤ since → ltb since m.updated_rev ≡ ltb since e.updated_rev

abbrev pub Aligned : ℕ → Dict Key MirrorEntry → Dict Key Entry → Type 0
Aligned at [] [] = Unit
Aligned at [] (q ∷ d) = ⊥
Aligned at (p ∷ l) [] = ⊥
Aligned at ((j, m) ∷ l) ((k, e) ∷ d) = (j ≡ k) × EntryAgrees at m e × Aligned at l d

abbrev LocalAgrees : ℕ → Option MirrorEntry → Option Entry → Type 0
LocalAgrees at none none = Unit
LocalAgrees at none (some e) = ⊥
LocalAgrees at (some m) none = ⊥
LocalAgrees at (some m) (some e) = EntryAgrees at m e

module _ (at : ℕ) where
  pub put-Aligned :
      (k : Key) (m : MirrorEntry) (e : Entry) (l : Dict Key MirrorEntry) (d : Dict Key Entry)
      → EntryAgrees at m e
      → Aligned at l d
      → Aligned at (put k m l) (put k e d)
  unfolding put
  put-Aligned k m e [] [] h a = (refl, h, tt)
  put-Aligned k m e [] (q ∷ d) h a = absurd a
  put-Aligned k m e (p ∷ l) [] h a = absurd a
  put-Aligned k m e ((i, n) ∷ l) ((j, f) ∷ d) h a = elim (Bool-cases (j == k)) [
    | inl p ↦ rw (a.0, p) (refl, h, a.2)
    | inr p ↦ rw (a.0, p) (refl, a.1, put-Aligned k m e l d h a.2)
  ]

  get-Aligned :
      (k : Key) (l : Dict Key MirrorEntry) (d : Dict Key Entry)
      → Aligned at l d
      → LocalAgrees at (get k l) (get k d)
  unfolding get
  get-Aligned k [] [] a = tt
  get-Aligned k [] (q ∷ d) a = absurd a
  get-Aligned k (p ∷ l) [] a = absurd a
  get-Aligned k ((i, n) ∷ l) ((j, f) ∷ d) a = elim (Bool-cases (j == k)) [
    | inl p ↦ rw (a.0, p) a.1
    | inr p ↦ rw (a.0, p) (get-Aligned k l d a.2)
  ]

  points_agree :
      (m : Option MirrorEntry) (e : Option Entry) → LocalAgrees at m e → local_point m ≡ point_of e
  points_agree none none h = refl
  points_agree none (some e) h = absurd h
  points_agree (some m) none h = absurd h
  points_agree (some m) (some e) h = ap some h.points

  pub Aligned-SamePoints :
      (l : Dict Key MirrorEntry) (d : Dict Key Entry) → Aligned at l d → SamePoints l d
  Aligned-SamePoints l d a k = points_agree (get k l) (get k d) (get-Aligned k l d a)

  pub stamp_added-Aligned :
      (rev : ℕ) (items : Dict Key DataPoint) (l : Dict Key MirrorEntry) (d : Dict Key Entry)
      → IsKeyed items
      → Aligned at l d
      → Aligned at (stamp_added rev items l) (land_added rev d (values items))
  unfolding stamp_added land_added
  stamp_added-Aligned rev [] l d h a = a
  stamp_added-Aligned rev ((k, p) ∷ items) l d h a =
      let m : MirrorEntry = record { data_point = p; added_rev = rev; updated_rev = rev } in
      let e : Entry = record { data_point = p; added_rev = rev; updated_rev = rev } in
      rw (h.0, land_added)
        (stamp_added-Aligned rev items (put k m l) (put k e d) h.1 (
          put-Aligned k m e l d
            (record { points = refl; added_stamps = λ s q. refl; updated_stamps = λ s q. refl }) a))

  stamp_updated_found :
      (rev : ℕ) (k : Key) (p : DataPoint) (items : Dict Key DataPoint) (l : Dict Key MirrorEntry)
      (m : MirrorEntry)
      → get k l ≡ some m
      → stamp_updated rev ((k, p) ∷ items) l
        ≡ stamp_updated rev items (put k (record m { data_point = p; updated_rev = rev }) l)
  unfolding stamp_updated
  stamp_updated_found rev k p items l m found = rw (found, stamp_updated)

  -- With every identity stored, the second loop of `_apply` finds its entries.
  pub stamp_updated-Aligned :
      (rev : ℕ) (items : Dict Key DataPoint) (l : Dict Key MirrorEntry) (d : Dict Key Entry)
      → IsKeyed items
      → ((k : Key) → has k items ≡ true → has k d ≡ true)
      → Aligned at l d
      → ((stamp_updated rev items l).0 ≡ ok tt)
        × Aligned at (stamp_updated rev items l).1 (land_updated rev d (values items))
  unfolding land_updated
  stamp_updated-Aligned rev [] l d h stored a = unfold stamp_updated in (refl, a)
  stamp_updated-Aligned rev ((k, p) ∷ items) l d h stored a =
      found (stamp_updated-Aligned rev items) (get k l) (get k d) refl refl (get-Aligned k l d a)
        (stored k (has-cons_self k p items))
    where
      later : (e : Entry) (j : Key) → has j items ≡ true → has j (put k e d) ≡ true
      later e j h = has-put_weaken k j e d (stored j (has-cons_weaken k j p items h))

      found :
          ((l' : Dict Key MirrorEntry) (d' : Dict Key Entry)
            → IsKeyed items
            → ((j : Key) → has j items ≡ true → has j d' ≡ true)
            → Aligned at l' d'
            → ((stamp_updated rev items l').0 ≡ ok tt)
              × Aligned at (stamp_updated rev items l').1 (land_updated rev d' (values items)))
          → (m : Option MirrorEntry) (e : Option Entry) → get k l ≡ m
          → get k d ≡ e
          → LocalAgrees at m e
          → is_some (get k d) ≡ true
          → ((stamp_updated rev ((k, p) ∷ items) l).0 ≡ ok tt)
            × Aligned at
                (stamp_updated rev ((k, p) ∷ items) l).1
                (land_updated rev d (values ((k, p) ∷ items)))
      found ih none none pm pe g s = absurd (ground arith)
      found ih none (some e) pm pe g s = absurd g
      found ih (some m) none pm pe g s = absurd g
      found ih (some m) (some e) pm pe g s =
          let m' : MirrorEntry = record m { data_point = p; updated_rev = rev } in
          let e' : Entry = record { data_point = p; added_rev = e.added_rev; updated_rev = rev } in
          rw (stamp_updated_found rev k p items l m pm, h.0, land_updated, pe)
            (ih (put k m' l) (put k e' d) h.1 (later e') (
              put-Aligned k m' e' l d
                (record {
                  points = refl;
                  added_stamps = g.added_stamps;
                  updated_stamps = λ s q. refl;
                })
                a))
