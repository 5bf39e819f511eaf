-- ===== src/Archive/Reading.antt =====
-- What a read answers, whenever the buffer is flushed.
use orcastork.Base.Dict.{values, Dict}
use orcastork.Base.{
  List, [], ap, false, filter, ltb, map, sym, true, ◌++◌, ◌∷◌, Bool-cases, Option, String, inl, inr,
  ok, refl, ℕ, ◌∙◌, ◌≡◌, pair_eq, string_eq,
}
use orcastork.Archive.{
  ArchivedDataPoint, Codec, ArchiveState, fold_in, fold_all, flush, read, archive, seal, unseal,
  value_hash, is_live,
}

-- The calls that change an archive.
pub data Event : Type 0 where
  archives : ArchivedDataPoint → Event
  flushes : Event

module _ (codec : Codec) where
  unfoldable pub happen : Event → ArchiveState → ArchiveState
  unfolding archive flush
  happen (archives entry) s = (archive codec entry s).1
  happen flushes s = (flush codec s).1

  unfoldable pub happen_all : List Event → ArchiveState → ArchiveState
  happen_all [] s = s
  happen_all (e ∷ events) s = happen_all events (happen e s)

  abbrev pub unflushed : List Event → List Event
  unflushed [] = []
  unflushed (archives entry ∷ events) = archives entry ∷ unflushed events
  unflushed (flushes ∷ events) = unflushed events

  abbrev folded_of : ArchiveState → Dict (String × String) ArchivedDataPoint
  folded_of s = fold_all s.buffer s.committed

  -- Two archives that hold the same, however much of it is still buffered.
  record Alike (s s' : ArchiveState) : Type 0 where
    same_fold : folded_of s ≡ folded_of s'
    same_epoch : s.max_epoch ≡ s'.max_epoch

  fold_all-append :
      (xs ys : List ArchivedDataPoint) (m : Dict (String × String) ArchivedDataPoint)
      → fold_all (xs ++ ys) m ≡ fold_all ys (fold_all xs m)
  fold_all-append [] ys m = refl
  fold_all-append (x ∷ xs) ys m = fold_all-append xs ys (fold_in x m)

  abbrev sealed : ArchivedDataPoint → ArchivedDataPoint
  sealed entry = record (seal codec entry) { value_hash = value_hash codec entry }

  archive_stale :
      (entry : ArchivedDataPoint) (s : ArchiveState)
      → ltb entry.epoch s.max_epoch ≡ true
      → (archive codec entry s).1 ≡ s
  unfolding archive
  archive_stale entry s h = rw (h) refl

  archive_live :
      (entry : ArchivedDataPoint) (s : ArchiveState)
      → ltb entry.epoch s.max_epoch ≡ false
      → (archive codec entry s).1
        ≡ record s { max_epoch = entry.epoch; buffer = s.buffer ++ sealed entry ∷ [] }
  unfolding archive
  archive_live entry s h = rw (h) refl

  archive-Alike :
      (entry : ArchivedDataPoint) (s s' : ArchiveState)
      → Alike s s'
      → Alike (archive codec entry s).1 (archive codec entry s').1
  archive-Alike entry s s' a = elim (Bool-cases (ltb entry.epoch s.max_epoch)) [
    | inl stale ↦
        rw (archive_stale entry s stale, archive_stale entry s' (rw (a.same_epoch) at stale)) a
    | inr live ↦
        rw (archive_live entry s live, archive_live entry s' (rw (a.same_epoch) at live))
          (record {
            same_fold =
                fold_all-append s.buffer (sealed entry ∷ []) s.committed
                ∙ ap (fold_in (sealed entry)) a.same_fold
                ∙ sym (fold_all-append s'.buffer (sealed entry ∷ []) s'.committed);
            same_epoch = refl;
          })
  ]

  flush-Alike : (s s' : ArchiveState) → Alike s s' → Alike (flush codec s).1 s'
  unfolding flush
  flush-Alike s s' a = record { same_fold = a.same_fold; same_epoch = a.same_epoch }

  happen_all-Alike :
      (events : List Event) (s s' : ArchiveState)
      → Alike s s'
      → Alike (happen_all events s) (happen_all (unflushed events) s')
  unfolding happen_all happen
  happen_all-Alike [] s s' a = a
  happen_all-Alike (archives entry ∷ events) s s' a =
      happen_all-Alike events (archive codec entry s).1 (archive codec entry s').1
        (archive-Alike entry s s' a)
  happen_all-Alike (flushes ∷ events) s s' a =
      happen_all-Alike events (flush codec s).1 s' (flush-Alike s s' a)

  read_of_Alike :
      (retained : Option (ℕ × ℕ)) (s s' : ArchiveState)
      → Alike s s'
      → (read codec retained s).0 ≡ (read codec retained s').0
  unfolding read
  read_of_Alike retained s s' a =
      ap (λ m. ok (map (unseal codec) (filter (is_live codec retained) (values m)))) a.same_fold

  -- When the buffer is flushed does not matter to a reader: after any calls, a read answers what it
  -- would answer had none of them flushed, with or without a retention.
  pub read-unflushed :
      (retained : Option (ℕ × ℕ)) (events : List Event) (s : ArchiveState)
      → (read codec retained (happen_all events s)).0
        ≡ (read codec retained (happen_all (unflushed events) s)).0
  read-unflushed retained events s =
      read_of_Alike retained (happen_all events s) (happen_all (unflushed events) s)
        (happen_all-Alike events s s (record { same_fold = refl; same_epoch = refl }))
