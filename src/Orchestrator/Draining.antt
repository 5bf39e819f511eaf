-- ===== src/Orchestrator/Draining.antt =====
-- How orcastork/orchestrator/orchestrator.py drains its inbox: poison entries are quarantined, the others
-- are applied and acknowledged, and an entry that cannot be applied is left for a few more deliveries.
use orcastork.Base.{
  Bool, Error, List, Result, String, [], if◌then◌else◌, leb, map, none, ok, pure, raise, some,
  stale_epoch, ℕ, ◌++◌, ◌>>=◌, ◌>>◌, ◌∷◌, true, false,
}
use orcastork.DataPoint.{DataPoint}
use orcastork.DataPoint.Collection.{MergeResult}
use orcastork.Mirror.{Act}
use orcastork.Inbox
use orcastork.Inbox.{Delivered, Parsers, inbox_entry, poison_entry}
use orcastork.Audit
use orcastork.Audit.Models.{AuditLogEntry, inbox, inbox_entry_quarantined}
use orcastork.Orchestrator.State.{Flow, Method, Session, Settings, on_audit, on_inbox, on_mirror}
use orcastork.Orchestrator.Merging.{from_operator, merge_bookkeeping}

-- `except StaleEpochError: raise`
abbrev pub is_stale : Error → Bool
is_stale stale_epoch = true
is_stale _ = false

-- The two lists of `_drain_inbox`.
abbrev pub poisoned : List Delivered → List Delivered
poisoned [] = []
poisoned (inbox_entry i d n ∷ entries) = poisoned entries
poisoned (poison_entry i e n raw ∷ entries) = poison_entry i e n raw ∷ poisoned entries

abbrev pub valid : List Delivered → List Delivered
valid [] = []
valid (inbox_entry i d n ∷ entries) = inbox_entry i d n ∷ valid entries
valid (poison_entry i e n raw ∷ entries) = valid entries

abbrev pub points_in : List Delivered → List DataPoint
points_in [] = []
points_in (inbox_entry i d n ∷ entries) = d ∷ points_in entries
points_in (poison_entry i e n raw ∷ entries) = points_in entries

-- The write is the mirror's; over another store than the in-memory one it may raise other errors.
module _ (f : Flow) (self : Settings)
    (write : List DataPoint → ℕ → Act (ℕ × List MergeResult)) where
  -- `except StaleEpochError: raise; except Exception:` with nothing but a log
  abbrev pub absorb : Result (Unit {0}) × Session → Result (Unit {0}) × Session
  absorb (ok _, s) = (ok tt, s)
  absorb (raise e, s) = if is_stale e then (raise e, s) else (ok tt, s)

  -- `_apply_inbox_data_points`
  unfoldable pub apply_inbox_data_points : List DataPoint → ℕ → Method Unit
  unfolding merge_bookkeeping
  apply_inbox_data_points ds epoch = do
    result ← on_mirror (write ds epoch)
    λ s. absorb (merge_bookkeeping f self (map (from_operator f self none) ds) result.1 epoch s)

  abbrev pub quarantine_row : String → String → ℕ → ℕ → ℕ → AuditLogEntry
  quarantine_row entry_id reason delivery_count epoch now = record {
    session_id = self.session_id;
    namespace_id = some self.namespace_id;
    epoch = epoch;
    timestamp = now;
    operator_id = none;
    kind = inbox_entry_quarantined;
    info = inbox (record { entry_id = entry_id; reason = reason; delivery_count = delivery_count });
  }

  -- `_quarantine_inbox_entry`
  unfoldable pub quarantine_inbox_entry : String → String → ℕ → ℕ → Method Unit
  quarantine_inbox_entry entry_id reason delivery_count epoch = do
    on_inbox (Inbox.quarantine entry_id reason epoch)
    λ s. on_audit (Audit.append (quarantine_row entry_id reason delivery_count epoch s.now)) s

  -- What follows the attempt to apply one entry.
  abbrev pub after_apply : String → ℕ → ℕ → Result (Unit {0}) → Method Unit
  after_apply entry_id delivery_count epoch (ok _) s = on_inbox (Inbox.ack entry_id epoch) s
  after_apply entry_id delivery_count epoch (raise e) s =
      if is_stale e
      then (raise e, s)
      else if leb self.max_inbox_deliveries delivery_count
      then quarantine_inbox_entry entry_id (f.str_error e) delivery_count epoch s
      else (ok tt, s)

  -- `_apply_inbox_entry`
  unfoldable pub apply_inbox_entry : Delivered → ℕ → Method Unit
  unfolding apply_inbox_data_points quarantine_inbox_entry
  apply_inbox_entry (poison_entry i e n raw) epoch s = (ok tt, s)
  apply_inbox_entry (inbox_entry entry_id d delivery_count) epoch s =
      let (r, t) = apply_inbox_data_points (d ∷ []) epoch s in
      after_apply entry_id delivery_count epoch r t

  unfoldable pub apply_each : List Delivered → ℕ → Method Unit
  unfolding apply_inbox_entry
  apply_each [] epoch = pure tt
  apply_each (entry ∷ entries) epoch = do apply_inbox_entry entry epoch; apply_each entries epoch

  unfoldable pub ack_each : List Delivered → ℕ → Method Unit
  ack_each [] epoch = pure tt
  ack_each (entry ∷ entries) epoch = do
    on_inbox (Inbox.ack (Inbox.delivered_id entry) epoch)
    ack_each entries epoch

  -- What follows the attempt to apply the whole batch.
  abbrev pub after_batch : List Delivered → ℕ → Result (Unit {0}) → Method Unit
  after_batch entries epoch (ok _) s = ack_each entries epoch s
  after_batch entries epoch (raise e) s =
      if is_stale e then (raise e, s) else apply_each entries epoch s

  unfoldable pub apply_valid : List Delivered → ℕ → Method Unit
  unfolding apply_inbox_data_points apply_each ack_each
  apply_valid [] epoch s = apply_each [] epoch s
  apply_valid (entry ∷ []) epoch s = apply_each (entry ∷ []) epoch s
  apply_valid (entry ∷ more ∷ entries) epoch s =
      let (r, t) = apply_inbox_data_points (points_in (entry ∷ more ∷ entries)) epoch s in
      after_batch (entry ∷ more ∷ entries) epoch r t

  abbrev pub quarantine_poison : Delivered → ℕ → Method Unit
  quarantine_poison (inbox_entry i d n) epoch s = (ok tt, s)
  quarantine_poison (poison_entry entry_id error delivery_count raw) epoch s =
      quarantine_inbox_entry entry_id error delivery_count epoch s

  unfoldable pub quarantine_each : List Delivered → ℕ → Method Unit
  unfolding quarantine_inbox_entry
  quarantine_each [] epoch = pure tt
  quarantine_each (entry ∷ entries) epoch = do
    quarantine_poison entry epoch
    quarantine_each entries epoch

  module _ (p : Parsers) where
    -- `_drain_inbox`
    unfoldable pub drain_inbox : ℕ → Method Unit
    unfolding apply_valid quarantine_each
    drain_inbox epoch = do
      reclaimed ← on_inbox (Inbox.reclaim p)
      consumed ← on_inbox (Inbox.consume p none)
      quarantine_each (poisoned (reclaimed ++ consumed)) epoch
      apply_valid (valid (reclaimed ++ consumed)) epoch
