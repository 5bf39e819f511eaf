-- ===== src/Mirror/Resolve.antt =====
-- A batch resolved on the local copy and forwarded leaves the store as a direct write would.
use orcastork.Base.Dict.{get-put, put, Dict, IsDistinct, get}
use orcastork.Base.{
  Bool-cases, arith, if◌then◌else◌, inl, inr, ltb, refl, ◌==◌, Bool, Option, is_empty, none, some,
  ℕ, ◌&&◌, ◌≡◌,
}
use orcastork.DataPoint.{DataPoint, Key, key_eq, identity_key, reobserved, reobserved_covered}
use orcastork.Store.{Entry}
use orcastork.Store.Merge.{observe, landed, IsKeyed}
use orcastork.Mirror.{MirrorEntry, Resolution, resolve_one, nothing}

abbrev pub point_of : Option Entry → Option DataPoint
point_of none = none
point_of (some e) = some e.data_point

abbrev pub local_point : Option MirrorEntry → Option DataPoint
local_point none = none
local_point (some e) = some e.data_point

-- What the parts of a resolution may be for an identity whose stored entry is `old`.
abbrev pub Fits : Option Entry → Option DataPoint → Option DataPoint → Type 0
Fits none a none = Unit
Fits none a (some u) = ⊥
Fits (some e) none u = Unit
Fits (some e) (some a) u = ⊥

abbrev pub is_nothing : Resolution → Bool
is_nothing r = is_empty r.added && is_empty r.updated

-- The local copy and the store hold the same points.
abbrev pub SamePoints : Dict Key MirrorEntry → Dict Key Entry → Type 0
SamePoints local entries = (k : Key) → local_point (get k local) ≡ point_of (get k entries)

pub record IsResolution (entries : Dict Key Entry) (r : Resolution) : Type 0 where
  pub added_keyed : IsKeyed r.added
  pub updated_keyed : IsKeyed r.updated
  pub added_distinct : IsDistinct r.added
  pub updated_distinct : IsDistinct r.updated
  pub fits : (k : Key) → Fits (get k entries) (get k r.added) (get k r.updated)

pub IsResolution-nothing : (entries : Dict Key Entry) → IsResolution entries nothing
unfolding get
IsResolution-nothing entries = record {
  added_keyed = tt;
  updated_keyed = tt;
  added_distinct = tt;
  updated_distinct = tt;
  fits = λ k. fit k (get k entries);
}
  where
    fit : (k : Key) (o : Option Entry) → Fits o none none
    fit k none = tt
    fit k (some e) = tt

-- Where one point goes, and as what.
pub data Move : Type 0 where
  to_added to_updated : DataPoint → Move
  to_none : Move

abbrev pub choose : DataPoint → Option DataPoint → Option DataPoint → Option DataPoint → Move
choose d (some seen) u o = to_added (reobserved d.last_retrieved seen)
choose d none (some seen) o = to_updated (reobserved d.last_retrieved seen)
choose d none none none = to_added d
choose d none none (some old) =
    if ltb old.last_retrieved d.last_retrieved
    then to_updated (reobserved d.last_retrieved old)
    else to_none

abbrev pub after_added : {A : Type 0} → Move → (DataPoint → A) → A → A
after_added (to_added p) f a = f p
after_added (to_updated p) f a = a
after_added to_none f a = a

abbrev pub after_updated : {A : Type 0} → Move → (DataPoint → A) → A → A
after_updated (to_added p) f a = a
after_updated (to_updated p) f a = f p
after_updated to_none f a = a

module _ (local : Dict Key MirrorEntry) (r : Resolution) (d : DataPoint) where
  abbrev pub move : Move
  move =
      choose d (get (identity_key d) r.added) (get (identity_key d) r.updated)
        (local_point (get (identity_key d) local))

  pub added-resolve_one :
      (resolve_one local r d).added ≡ after_added move (λ p. put (identity_key d) p r.added) r.added
  unfolding resolve_one
  added-resolve_one = ground arith

  pub updated-resolve_one :
      (resolve_one local r d).updated
      ≡ after_updated move (λ p. put (identity_key d) p r.updated) r.updated
  unfolding resolve_one
  updated-resolve_one = ground arith

-- On one identity: the entry after the move is the entry that a direct write makes.
pub landed-choose :
    (rev : ℕ) (d : DataPoint) (old : Option Entry) (a u : Option DataPoint)
    → Fits old a u
    → landed rev
        (after_added (choose d a u (point_of old)) some a)
        (after_updated (choose d a u (point_of old)) some u)
        old
      ≡ some (observe rev d (landed rev a u old))
landed-choose rev d none none none h = refl
landed-choose rev d none none (some u) h = absurd h
landed-choose rev d none (some a) none h = ground (arith, reobserved_covered d.last_retrieved a)
landed-choose rev d none (some a) (some u) h = absurd h
landed-choose rev d (some e) none none h = ground arith
landed-choose rev d (some e) none (some u) h = ground (arith, reobserved_covered d.last_retrieved u)
landed-choose rev d (some e) (some a) u h = absurd h

pub Fits-choose :
    (d : DataPoint) (old : Option Entry) (a u : Option DataPoint)
    → Fits old a u
    → Fits old
        (after_added (choose d a u (point_of old)) some a)
        (after_updated (choose d a u (point_of old)) some u)
Fits-choose d none none none h = tt
Fits-choose d none none (some u) h = absurd h
Fits-choose d none (some a) none h = tt
Fits-choose d none (some a) (some u) h = absurd h
Fits-choose d (some e) none none h =
    elim (Bool-cases (ltb e.data_point.last_retrieved d.last_retrieved)) [
      | inl new ↦ rw new tt
      | inr old ↦ rw old tt
    ]
Fits-choose d (some e) none (some u) h = tt
Fits-choose d (some e) (some a) u h = absurd h

-- The part of a resolution for any identity, after one point.
pub get-after_added :
    (m : Move) (j k : Key) (items : Dict Key DataPoint)
    → get k (after_added m (λ p. put j p items) items)
      ≡ (if j == k then after_added m some (get k items) else get k items)
get-after_added (to_added p) j k items = get-put j k p items
get-after_added (to_updated p) j k items = ground arith
get-after_added to_none j k items = ground arith

pub get-after_updated :
    (m : Move) (j k : Key) (items : Dict Key DataPoint)
    → get k (after_updated m (λ p. put j p items) items)
      ≡ (if j == k then after_updated m some (get k items) else get k items)
get-after_updated (to_added p) j k items = ground arith
get-after_updated (to_updated p) j k items = get-put j k p items
get-after_updated to_none j k items = ground arith
