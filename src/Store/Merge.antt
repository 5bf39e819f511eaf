-- ===== src/Store/Merge.antt =====
-- What one observation, and a resolved batch, leave under each identity.
use orcastork.Base.Dict.{Dict, IsDistinct, get, get-put, put, values}
use orcastork.Base.{
  Bool, Option, Option-cases, [], ap, arith, if◌then◌else◌, inl, inr, ltb, none, refl, some, true,
  ℕ, ◌==◌, ◌∙◌, ◌∷◌, ◌≡◌,
}
use orcastork.Base.Folds.{written, put_each, get-put_each}
use orcastork.DataPoint.{DataPoint, Key, key_eq, key_beq_iff, identity_key, reobserved}
use orcastork.Store.{Entry, added_stamp, merge_one, land_added, land_updated}

abbrev pub new_entry : ℕ → DataPoint → Option Entry → Entry
new_entry rev d _ = record { data_point = d; added_rev = rev; updated_rev = rev }

abbrev pub merged_entry : ℕ → DataPoint → Option Entry → Entry
merged_entry rev d old = record { data_point = d; added_rev = added_stamp old; updated_rev = rev }

-- The entry after one observation of its identity.
abbrev pub observe : ℕ → DataPoint → Option Entry → Entry
observe rev d none = new_entry rev d none
observe rev d (some e) =
    if ltb e.data_point.last_retrieved d.last_retrieved
    then record e { data_point = reobserved d.last_retrieved e.data_point; updated_rev = rev }
    else e

-- Whether an observation changes the entry.
abbrev pub is_news : DataPoint → Option Entry → Bool
is_news d none = true
is_news d (some e) = ltb e.data_point.last_retrieved d.last_retrieved

pub merge_one-news :
    (rev : ℕ) (entries : Dict Key Entry) (d : DataPoint)
    → (merge_one rev entries d).1 ≡ is_news d (get (identity_key d) entries)
unfolding merge_one
merge_one-news rev entries d = ground arith

pub get-merge_one :
    (rev : ℕ) (entries : Dict Key Entry) (d : DataPoint) (k : Key)
    → get k (merge_one rev entries d).0
      ≡ (if identity_key d == k then some (observe rev d (get k entries)) else get k entries)
unfolding merge_one
get-merge_one rev entries d k = elim (Option-cases (get (identity_key d) entries)) [
  | inl new ↦ ground (
    arith,
    key_beq_iff (identity_key d) k,
    get-put (identity_key d) k (new_entry rev d none) entries,
  )
  | inr (e, seen) ↦ ground (
    arith,
    key_beq_iff (identity_key d) k,
    get-put (identity_key d) k
        (record e { data_point = reobserved d.last_retrieved e.data_point; updated_rev = rev })
        entries,
  )
]

-- Each point of a resolved batch stands under its own identity.
abbrev pub IsKeyed : Dict Key DataPoint → Type 0
IsKeyed [] = Unit
IsKeyed ((k, d) ∷ items) = (identity_key d ≡ k) × IsKeyed items

pub put-IsKeyed :
    (k : Key) (d : DataPoint) (items : Dict Key DataPoint)
    → identity_key d ≡ k
    → IsKeyed items
    → IsKeyed (put k d items)
unfolding put
put-IsKeyed k d [] e h = (e, tt)
put-IsKeyed k d ((j, c) ∷ items) e h = ground (arith, key_beq_iff j k, put-IsKeyed k d items e h.1)

pub get-IsKeyed :
    (k : Key) (d : DataPoint) (items : Dict Key DataPoint)
    → IsKeyed items
    → get k items ≡ some d
    → identity_key d ≡ k
unfolding get
get-IsKeyed k d [] h e = cc
get-IsKeyed k d ((j, c) ∷ items) h e = ground (arith, key_beq_iff j k, get-IsKeyed k d items h.1)

land_added-put_each :
    (rev : ℕ) (items : Dict Key DataPoint) (entries : Dict Key Entry)
    → IsKeyed items
    → land_added rev entries (values items) ≡ put_each (new_entry rev) items entries
unfolding land_added put_each
land_added-put_each rev [] entries h = refl
land_added-put_each rev ((k, d) ∷ items) entries h =
    rw (h.0, land_added) (land_added-put_each rev items (put k (new_entry rev d none) entries) h.1)

land_updated-put_each :
    (rev : ℕ) (items : Dict Key DataPoint) (entries : Dict Key Entry)
    → IsKeyed items
    → land_updated rev entries (values items) ≡ put_each (merged_entry rev) items entries
unfolding land_updated put_each
land_updated-put_each rev [] entries h = refl
land_updated-put_each rev ((k, d) ∷ items) entries h =
    rw (h.0, land_updated)
      (land_updated-put_each rev items (put k (merged_entry rev d (get k entries)) entries) h.1)

-- The entry that a resolved batch leaves, from its parts for the identity and the entry before.
abbrev pub landed : ℕ → Option DataPoint → Option DataPoint → Option Entry → Option Entry
landed rev added updated old =
    written (merged_entry rev) updated (written (new_entry rev) added old)

pub get-landed :
    (rev : ℕ) (added updated : Dict Key DataPoint) (entries : Dict Key Entry) (k : Key)
    → IsKeyed added × IsDistinct added
    → IsKeyed updated × IsDistinct updated
    → get k (land_updated rev (land_added rev entries (values added)) (values updated))
      ≡ landed rev (get k added) (get k updated) (get k entries)
get-landed rev added updated entries k a u = rw (land_added-put_each rev added entries a.0) (
    rw (land_updated-put_each rev updated (put_each (new_entry rev) added entries) u.0) (
      get-put_each (merged_entry rev) k updated (put_each (new_entry rev) added entries) u.1
      ∙ ap (written (merged_entry rev) (get k updated))
          (get-put_each (new_entry rev) k added entries a.1)))
