-- ===== src/Durable/Finality.antt =====
-- A final document stays final: the guard of `AggregationHelpers.upsert`, between whose read and
-- write other calls may come.
use orcastork.Base.{
  arith, sym, ◌∙◌, ◌≢◌, Bool, List, Result, ℕ, Option, String, false, inl, inr, ok, refl, some,
  true, ◌≡◌,
}
use orcastork.DataPoint.Hashing.{Value}
use orcastork.Durable.{StoredDocument, DurableState, version_of, upsert}
use orcastork.Durable.Helpers.{AggregationHelpers, has_final_status, write_over, in_progress}
use orcastork.Durable.Versions.{
  Call, perform_all, perform_all-version, stored, Refused, upsert_outdated,
}

true_not_false : true ≢ false
true_not_false h = absurd (ground arith)

module _ (table key : String) where
  write_over_final :
      (h : AggregationHelpers) (document : Value) (existing : Option StoredDocument)
      (s : DurableState)
      → h.is_final ≡ false
      → has_final_status existing ≡ true
      → write_over h table key document existing s ≡ (ok (version_of existing), s)
  unfolding write_over
  write_over_final h document existing s i f = rw (i, f) refl

  write_over_open :
      (h : AggregationHelpers) (document : Value) (existing : Option StoredDocument)
      (s : DurableState)
      → h.is_final ≡ false
      → has_final_status existing ≡ false
      → write_over h table key document existing s
        ≡ upsert table key document (version_of existing) h.epoch (some in_progress) (some h.now) s
  unfolding write_over
  write_over_open h document existing s i f = rw (i, f) refl

  -- What an interim write comes to, by whether the document was final when it was read.
  abbrev pub IsGuarded :
      Bool → Option StoredDocument → Result ℕ × DurableState → DurableState → Type 0
  IsGuarded true existing outcome s = outcome ≡ (ok (version_of existing), s)
  IsGuarded false existing outcome s = Refused outcome s

  guarded :
      (h : AggregationHelpers) (document : Value) (cs : List Call) (s : DurableState)
      → h.is_final ≡ false
      → has_final_status (stored table key (perform_all cs s)) ≡ true
      → (was : Bool) → has_final_status (stored table key s) ≡ was
      → IsGuarded was
          (stored table key s)
          (write_over h table key document (stored table key s) (perform_all cs s))
          (perform_all cs s)
  guarded h document cs s i f true was =
      write_over_final h document (stored table key s) (perform_all cs s) i was
  guarded h document cs s i f false was = elim (perform_all-version table key cs s) [
    | inl same ↦ absurd (true_not_false (sym (rw (same) at f) ∙ was))
    | inr more ↦ rw (write_over_open h document (stored table key s) (perform_all cs s) i was) (
        upsert_outdated table key document (version_of (stored table key s)) h.epoch
          (some in_progress) (some h.now) (perform_all cs s) more)
  ]

  -- An interim write of the helper that read the document in one state, and writes in a later one,
  -- after any calls, if the document is final by then: where it read a final one, the write returns the
  -- version that it read and changes nothing; and where it did not, the write raises a stale epoch or
  -- a version conflict, and leaves every document as it was.
  pub final_kept :
      (h : AggregationHelpers) (document : Value) (cs : List Call) (s : DurableState)
      → h.is_final ≡ false
      → has_final_status (stored table key (perform_all cs s)) ≡ true
      → IsGuarded
          (has_final_status (stored table key s))
          (stored table key s)
          (write_over h table key document (stored table key s) (perform_all cs s))
          (perform_all cs s)
  final_kept h document cs s i f =
      guarded h document cs s i f (has_final_status (stored table key s)) refl
