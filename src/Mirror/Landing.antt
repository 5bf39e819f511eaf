-- ===== src/Mirror/Landing.antt =====
-- Landing a resolution in the store and stamping it on the local entries, side by side.
use orcastork.Base.Dict.{Dict, get, has, has-put_weaken, put, values}
use orcastork.Base.{
  Result, arith, false, ◌+◌, Bool-cases, List, Option, [], and-true, inl, inr, is_empty, is_some,
  none, ok, refl, some, true, ℕ, ◌&&◌, ◌∷◌, ◌≡◌, ◌≤◌,
}
use orcastork.DataPoint.{identity_key, DataPoint, Key, key_eq}
use orcastork.Store.{Entry, SessionState, land_added, land_updated, land_batch}
use orcastork.Store.Invariant.{IsValid, IsEntry, get-IsEntry}
use orcastork.Mirror.{MirrorEntry, Resolution, stamp_added, stamp_updated}
use orcastork.Mirror.Resolve.{point_of, Fits, IsResolution}
use orcastork.Mirror.Parts.{IsKeyedPoint}
use orcastork.Mirror.Forward.{EntriesKeyed, is_empty-values}
use orcastork.Mirror.Aligned.{Aligned, stamp_added-Aligned, stamp_updated-Aligned}

keyed_point :
    (rev : ℕ) (k : Key) (o : Option Entry)
    → ((e : Entry) → o ≡ some e → IsEntry rev k e)
    → IsKeyedPoint k (point_of o)
keyed_point rev k none h = tt
keyed_point rev k (some e) h = (h e refl).keyed

pub IsValid-EntriesKeyed : (s : SessionState) → IsValid s → EntriesKeyed s
IsValid-EntriesKeyed s h k =
    keyed_point s.revision k (get k s.entries) (λ e p. get-IsEntry s.revision k e s.entries h p)

land_added-has :
    (rev : ℕ) (k : Key) (d : Dict Key Entry) (ds : List DataPoint)
    → has k d ≡ true
    → has k (land_added rev d ds) ≡ true
unfolding land_added
land_added-has rev k d [] h = h
land_added-has rev k d (p ∷ ds) h =
    let e : Entry = record { data_point = p; added_rev = rev; updated_rev = rev } in
    land_added-has rev k (put (identity_key p) e d) ds (has-put_weaken (identity_key p) k e d h)

stamp_nothing :
    (rev : ℕ) (added updated : Dict Key DataPoint) (l : Dict Key MirrorEntry)
    → is_empty added ≡ true
    → is_empty updated ≡ true
    → stamp_updated rev updated (stamp_added rev added l) ≡ (ok tt, l)
unfolding is_empty stamp_updated stamp_added
stamp_nothing rev [] [] l p q = refl
stamp_nothing rev (x ∷ added) [] l p q = cc
stamp_nothing rev added (x ∷ updated) l p q = cc

land_nothing :
    (added updated : Dict Key DataPoint) (s : SessionState)
    → is_empty added && is_empty updated ≡ true
    → land_batch (values added) (values updated) s ≡ (ok s.revision, s)
unfolding land_batch
land_nothing added updated s e = rw (is_empty-values added, is_empty-values updated, e)

land_some :
    (added updated : Dict Key DataPoint) (s : SessionState)
    → is_empty added && is_empty updated ≡ false
    → land_batch (values added) (values updated) s ≡ (
      ok (s.revision + 1),
      record s {
        entries =
            land_updated
              (s.revision + 1)
              (land_added (s.revision + 1) s.entries (values added))
              (values updated);
        revision = s.revision + 1;
      },
    )
unfolding land_batch
land_some added updated s e = rw (is_empty-values added, is_empty-values updated, e)

stored_of_Fits :
    (old : Option Entry) (a u : Option DataPoint)
    → Fits old a u
    → is_some u ≡ true
    → is_some old ≡ true
stored_of_Fits none a none h e = cc
stored_of_Fits none a (some u) h e = absurd h
stored_of_Fits (some old) a u h e = refl

-- What `_apply` makes of the local entries, beside the outcome of landing the batch in the store.
abbrev pub stamped :
    Resolution → Dict Key MirrorEntry → SessionState → Result (Unit {0}) × Dict Key MirrorEntry
stamped r l landed = stamp_updated landed.revision r.updated (stamp_added landed.revision r.added l)

abbrev pub land : Resolution → SessionState → Result ℕ × SessionState
land r s = land_batch (values r.added) (values r.updated) s

pub apply-Aligned :
    (at : ℕ) (r : Resolution) (l : Dict Key MirrorEntry) (s : SessionState)
    → IsResolution s.entries r
    → Aligned at l s.entries
    → ((stamped r l (land r s).1).0 ≡ ok tt)
      × Aligned at (stamped r l (land r s).1).1 (land r s).1.entries
apply-Aligned at r l s h a = elim (Bool-cases (is_empty r.added && is_empty r.updated)) [
  | inl e ↦
      let (p, q) = and-true (is_empty r.added) (is_empty r.updated) e in
      rw (land_nothing r.added r.updated s e, stamp_nothing s.revision r.added r.updated l p q)
        (refl, a)
  | inr e ↦ rw (land_some r.added r.updated s e) (
      stamp_updated-Aligned at (s.revision + 1) r.updated (stamp_added (s.revision + 1) r.added l)
        (land_added (s.revision + 1) s.entries (values r.added)) h.updated_keyed
        (λ k u.
          land_added-has (s.revision + 1) k s.entries (values r.added)
            (stored_of_Fits (get k s.entries) (get k r.added) (get k r.updated) (h.fits k) u))
        (stamp_added-Aligned at (s.revision + 1) r.added l s.entries h.added_keyed a))
]

pub land-revision :
    (r : Resolution) (s : SessionState)
    → ((land r s).0 ≡ ok (land r s).1.revision) × (s.revision ≤ (land r s).1.revision)
land-revision r s = elim (Bool-cases (is_empty r.added && is_empty r.updated)) [
  | inl e ↦ rw (land_nothing r.added r.updated s e) (refl, omega arith)
  | inr e ↦ rw (land_some r.added r.updated s e) (refl, omega arith)
]
