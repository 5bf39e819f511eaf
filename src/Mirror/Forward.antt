-- ===== src/Mirror/Forward.antt =====
-- A batch resolved on the local copy and forwarded leaves the store as a direct write would.
use orcastork.Base.Dict.{values, Dict, get, put}
use orcastork.Base.{
  raise, stale_epoch, and-true, true, ◌+◌, Bool, Result, List, not, sym, ℕ, ◌||◌, Bool-cases, [],
  ap, false, inl, inr, is_empty, ltb, none, refl, some, ◌==◌, ◌∙◌, ◌∷◌, ◌≡◌,
}
use mathlib.Core.Path.{subst}
use orcastork.DataPoint.{DataPoint, Key, key_eq, key_beq_iff, identity_key}
use orcastork.Store.{
  write, apply_resolved, guard_epoch, merge_batch, land_batch, merge_all, merge_one, Entry,
}
use orcastork.Store.Merge.{get-landed, observe, merge_one-news, get-merge_one, landed}
use orcastork.Mirror.{
  nothing, resolve, SessionState, resolve_from, MirrorEntry, Resolution, resolve_one,
}
use orcastork.Mirror.Resolve.{
  IsResolution-nothing, landed-choose, is_nothing, point_of, Fits, SamePoints, IsResolution, Move,
  choose, after_added, after_updated, added-resolve_one, updated-resolve_one, Fits-choose,
  get-after_added, get-after_updated,
}
use orcastork.Mirror.Parts.{
  IsKeyedPoint, IsKeyedPoint-get, choose-IsKeyed, after_added-IsKeyed, after_updated-IsKeyed,
  after_added-IsDistinct, after_updated-IsDistinct, nothing-choose,
}

module _ (local : Dict Key MirrorEntry) (entries : Dict Key Entry)
    (same : SamePoints local entries) where
  module _ (keyed : (k : Key) → IsKeyedPoint k (point_of (get k entries))) where
    module _ (r : Resolution) (d : DataPoint) (h : IsResolution entries r) where
      abbrev j : Key
      j = identity_key d

      abbrev mv : Move
      mv = choose d (get j r.added) (get j r.updated) (point_of (get j entries))

      added_next : (resolve_one local r d).added ≡ after_added mv (λ p. put j p r.added) r.added
      added_next =
          added-resolve_one local r d
          ∙ ap
              (λ o.
                after_added (choose d (get j r.added) (get j r.updated) o) (λ p. put j p r.added)
                  r.added)
              (same j)

      updated_next :
          (resolve_one local r d).updated ≡ after_updated mv (λ p. put j p r.updated) r.updated
      updated_next =
          updated-resolve_one local r d
          ∙ ap
              (λ o.
                after_updated (choose d (get j r.added) (get j r.updated) o)
                  (λ p. put j p r.updated) r.updated)
              (same j)

      moved_keyed :
          IsKeyedPoint j (after_added mv some none) × IsKeyedPoint j (after_updated mv some none)
      moved_keyed =
          choose-IsKeyed d (get j r.added) (get j r.updated) (point_of (get j entries))
            (IsKeyedPoint-get j r.added (get j r.added) refl h.added_keyed)
            (IsKeyedPoint-get j r.updated (get j r.updated) refl h.updated_keyed) (keyed j)

      Fits-next :
          (k : Key)
          → Fits
              (get k entries)
              (get k (resolve_one local r d).added)
              (get k (resolve_one local r d).updated)
      Fits-next k =
          rw
            (
              added_next,
              updated_next,
              get-after_added mv j k r.added,
              get-after_updated mv j k r.updated,
            )
            (elim (Bool-cases (j == k)) [
              | inl e ↦ rw e (
                  subst
                    (λ i.
                      Fits (get i entries) (after_added mv some (get i r.added))
                        (after_updated mv some (get i r.updated)))
                    ((key_beq_iff j k).0 e)
                    (Fits-choose d (get j entries) (get j r.added) (get j r.updated) (h.fits j)))
              | inr e ↦ rw e (h.fits k)
            ])

      resolve_one-IsResolution : IsResolution entries (resolve_one local r d)
      resolve_one-IsResolution = record {
        added_keyed = rw added_next (after_added-IsKeyed mv j r.added moved_keyed.0 h.added_keyed);
        updated_keyed =
            rw updated_next (after_updated-IsKeyed mv j r.updated moved_keyed.1 h.updated_keyed);
        added_distinct = rw added_next (after_added-IsDistinct mv j r.added h.added_distinct);
        updated_distinct =
            rw updated_next (after_updated-IsDistinct mv j r.updated h.updated_distinct);
        fits = Fits-next;
      }

      -- The store's entries after the point, by a direct write onto what the resolution stands for.
      entries_next :
          (rev : ℕ) (direct : Dict Key Entry)
          → ((k : Key)
              → get k direct ≡ landed rev (get k r.added) (get k r.updated) (get k entries))
          → (k : Key)
          → get k (merge_one rev direct d).0
            ≡ landed rev
                (get k (resolve_one local r d).added)
                (get k (resolve_one local r d).updated)
                (get k entries)
      entries_next rev direct agree k =
          get-merge_one rev direct d k
          ∙ rw
              (
                added_next,
                updated_next,
                get-after_added mv j k r.added,
                get-after_updated mv j k r.updated,
                agree k,
              )
              (elim (Bool-cases (j == k)) [
                | inl e ↦ rw e (
                    subst
                      (λ i.
                        some (
                          observe rev d
                            (landed rev (get i r.added) (get i r.updated) (get i entries)))
                        ≡ landed rev (after_added mv some (get i r.added))
                            (after_updated mv some (get i r.updated)) (get i entries))
                      ((key_beq_iff j k).0 e)
                      (sym (
                        landed-choose rev d (get j entries) (get j r.added) (get j r.updated)
                          (h.fits j))))
                | inr e ↦ rw e refl
              ])

      -- A point changes the direct entries exactly when the resolution has a part afterwards.
      nothing_next :
          (rev : ℕ) (direct : Dict Key Entry)
          → ((k : Key)
              → get k direct ≡ landed rev (get k r.added) (get k r.updated) (get k entries))
          → not (is_nothing (resolve_one local r d))
            ≡ (not (is_nothing r) || (merge_one rev direct d).1)
      nothing_next rev direct agree =
          rw (merge_one-news rev direct d, agree j, added_next, updated_next)
            (nothing-choose rev j d (get j entries) r.added r.updated (get j r.added)
              (get j r.updated) refl refl (h.fits j))

    -- The whole batch, from any resolution and direct entries that agree with it.
    resolve_from-merge_all :
        (rev : ℕ) (ds : List DataPoint) (r : Resolution) (direct : Dict Key Entry) (changed : Bool)
        → IsResolution entries r
        → ((k : Key) → get k direct ≡ landed rev (get k r.added) (get k r.updated) (get k entries))
        → changed ≡ not (is_nothing r)
        → IsResolution entries (resolve_from local r ds)
          × ((k : Key)
              → get k (merge_all rev direct changed ds).0
                ≡ landed rev
                    (get k (resolve_from local r ds).added)
                    (get k (resolve_from local r ds).updated)
                    (get k entries))
          × ((merge_all rev direct changed ds).1 ≡ not (is_nothing (resolve_from local r ds)))
    unfolding resolve_from merge_all
    resolve_from-merge_all rev [] r direct changed h agree same_flag = (h, agree, same_flag)
    resolve_from-merge_all rev (d ∷ ds) r direct changed h agree same_flag =
        resolve_from-merge_all rev ds (resolve_one local r d) (merge_one rev direct d).0
          (changed || (merge_one rev direct d).1) (resolve_one-IsResolution r d h)
          (entries_next r d h rev direct agree)
          (ap (λ b. b || (merge_one rev direct d).1) same_flag
            ∙ sym (nothing_next r d h rev direct agree))

-- The same outcome, under every identity and in every other part of the session's state.
pub record SameOutcome (a b : Result ℕ × SessionState) : Type 0 where
  pub answers : a.0 ≡ b.0
  pub entries : (k : Key) → get k a.1.entries ≡ get k b.1.entries
  pub revisions : a.1.revision ≡ b.1.revision
  pub epochs : a.1.max_epoch ≡ b.1.max_epoch
  pub watermarks : a.1.watermarks ≡ b.1.watermarks
  pub effects : a.1.effects ≡ b.1.effects
  pub deadlines : a.1.deadline ≡ b.1.deadline
  pub fingerprints : a.1.flow_fingerprint ≡ b.1.flow_fingerprint

-- A session's entries stand under the identities of their points.
abbrev pub EntriesKeyed : SessionState → Type 0
EntriesKeyed s = (k : Key) → IsKeyedPoint k (point_of (get k s.entries))

pub is_empty-values : (items : Dict Key DataPoint) → is_empty (values items) ≡ is_empty items
unfolding is_empty
is_empty-values [] = refl
is_empty-values (p ∷ items) = refl

get_of_empty : (k : Key) (items : Dict Key DataPoint) → is_empty items ≡ true → get k items ≡ none
unfolding is_empty get
get_of_empty k [] h = refl
get_of_empty k (p ∷ items) h = cc

module _ (local : Dict Key MirrorEntry) (s : SessionState) (ds : List DataPoint) where
  module _ (same : SamePoints local s.entries) (keyed : EntriesKeyed s) where
    abbrev pub r : Resolution
    r = resolve local ds

    pub resolved :
        IsResolution s.entries r
        × ((k : Key)
            → get k (merge_all (s.revision + 1) s.entries false ds).0
              ≡ landed (s.revision + 1) (get k r.added) (get k r.updated) (get k s.entries))
        × ((merge_all (s.revision + 1) s.entries false ds).1 ≡ not (is_nothing r))
    unfolding resolve get is_empty
    resolved =
        resolve_from-merge_all local s.entries same keyed (s.revision + 1) ds nothing s.entries
          false (IsResolution-nothing s.entries) (λ k. refl) refl

    empty_resolution :
        is_nothing r ≡ true
        → (k : Key) → get k s.entries ≡ get k (merge_all (s.revision + 1) s.entries false ds).0
    empty_resolution none_at_all k =
        let (a, u) = and-true (is_empty r.added) (is_empty r.updated) none_at_all in
        sym (resolved.1 k ∙ rw (get_of_empty k r.added a, get_of_empty k r.updated u) refl)

    land-merge : SameOutcome (land_batch (values r.added) (values r.updated) s) (merge_batch ds s)
    unfolding land_batch merge_batch
    land-merge = elim (Bool-cases (is_nothing r)) [
      | inl e ↦
          rw (is_empty-values r.added, is_empty-values r.updated, e, resolved.2 ∙ ap not e)
            (record {
              answers = refl;
              entries = empty_resolution e;
              revisions = refl;
              epochs = refl;
              watermarks = refl;
              effects = refl;
              deadlines = refl;
              fingerprints = refl;
            })
      | inr e ↦
          rw (is_empty-values r.added, is_empty-values r.updated, e, resolved.2 ∙ ap not e)
            (record {
              answers = refl;
              entries = λ k.
                  get-landed (s.revision + 1) r.added r.updated s.entries k
                    (resolved.0.added_keyed, resolved.0.added_distinct)
                    (resolved.0.updated_keyed, resolved.0.updated_distinct)
                  ∙ sym (resolved.1 k);
              revisions = refl;
              epochs = refl;
              watermarks = refl;
              effects = refl;
              deadlines = refl;
              fingerprints = refl;
            })
    ]

same_refl : (a : Result ℕ × SessionState) → SameOutcome a a
same_refl a = record {
  answers = refl;
  entries = λ k. refl;
  revisions = refl;
  epochs = refl;
  watermarks = refl;
  effects = refl;
  deadlines = refl;
  fingerprints = refl;
}

-- Resolving a batch on a local copy that holds the store's points and forwarding the resolution
-- has the outcome of writing the batch directly: the same answer or error, and the same state.
pub forward-write :
    (local : Dict Key MirrorEntry) (s : SessionState) (ds : List DataPoint) (epoch : ℕ)
    → SamePoints local s.entries
    → EntriesKeyed s
    → SameOutcome
        (apply_resolved
          (values (resolve local ds).added)
          (values (resolve local ds).updated)
          epoch
          s)
        (write ds epoch s)
unfolding apply_resolved write guard_epoch
forward-write local s ds epoch same keyed = elim (Bool-cases (ltb epoch s.max_epoch)) [
  | inl stale ↦ rw stale (same_refl (raise stale_epoch, s))
  | inr current ↦ rw current (land-merge local (record s { max_epoch = epoch }) ds same keyed)
]
