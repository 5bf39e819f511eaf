-- ===== src/Orchestrator/Setup.antt =====
-- What orcastork/orchestrator/orchestrator.py does around its loop: the operators that are left out, the
-- flow's fingerprint, the capabilities of a pass, and the rows of a parked session.
use orcastork.Base.{
  inl, inr, ◌⊎◌, true, false, Bool, Error, List, Option, String, [], contains, filter,
  if◌then◌else◌, is_empty, none, not, ok, pure, some, ℕ, ◌++◌, ◌==◌, ◌>>=◌, ◌>>◌, ◌∷◌, ◌||◌, nat_eq,
  string_eq,
}
use orcastork.Base.Dict.{Dict, keys}
use orcastork.DataPoint.{Class, DataPoint}
use orcastork.Graph.{keep_operators}
use orcastork.Completion.{referenced_types}
use orcastork.Store
use orcastork.Mirror.{call}
use orcastork.Audit
use orcastork.Audit.Models.{
  AuditLogEntry, AuditKind, AuditInfo, no_info, capability, flow, session_parked,
  capability_activated, capability_activation_failed, flow_drift_detected,
}
use orcastork.Archive
use orcastork.Durable
use orcastork.Catalog
use orcastork.Availability.Refresh.{Activation, Activating, refresh}
use orcastork.Orchestrator.State.{
  Flow, FlowIdentity, Method, Session, Settings, ValueCipher, on_archive, on_audit, on_durable,
  on_mirror,
}

module _ (f : Flow) (self : Settings) where
  abbrev pub of_each : (Class → List Class) → List Class → List Class
  of_each types [] = []
  of_each types (operator ∷ operators) = types operator ++ of_each types operators

  -- `consumes` of an aggregator
  module _ (consumes : Class → List Class) where
    abbrev pub pruned_to : List Class → List Class → List Class
    pruned_to kept gathering =
        filter (λ operator. f.is_aggregator operator || contains operator kept) gathering

    abbrev pub prune_toward : Option (List Class) → Session → Session
    prune_toward none s = s
    prune_toward (some completion_types) s = record s {
      gathering =
          pruned_to
            (keep_operators f.classes
              (filter (λ operator. not (f.is_aggregator operator)) s.gathering)
              (of_each consumes s.aggregators
                ++ (of_each f.classes.depends_on s.aggregators ++ completion_types))).operators
            s.gathering;
    }

    -- `_prune_to_consumed_closure`
    unfoldable pub prune_to_consumed_closure : Session → Session
    unfolding keep_operators referenced_types
    prune_to_consumed_closure s =
        if is_empty (of_each consumes s.aggregators)
        then s
        else prune_toward (referenced_types self.completes_when) s

  abbrev pub permits : List String → Class → Bool
  permits permitted operator = contains (f.classes.operator_id operator) permitted

  abbrev pub restrict_operators : Option (List String) → Session → Session
  restrict_operators none s = s
  restrict_operators (some permitted) s = record s {
    gathering = filter (permits permitted) s.gathering;
    aggregators = filter (permits permitted) s.aggregators;
  }

  -- `_exclude_unpermitted_operators`
  unfoldable pub exclude_unpermitted_operators : Method Unit
  exclude_unpermitted_operators s =
      (ok tt, restrict_operators (Catalog.permitted_operators self.namespace_id s.catalog) s)

  abbrev pub row : AuditKind → AuditInfo → ℕ → ℕ → AuditLogEntry
  row kind info epoch now = record {
    session_id = self.session_id;
    namespace_id = some self.namespace_id;
    epoch = epoch;
    timestamp = now;
    operator_id = none;
    kind = kind;
    info = info;
  }

  abbrev pub audit : AuditKind → AuditInfo → ℕ → Method Unit
  audit kind info epoch s = on_audit (Audit.append (row kind info epoch s.now)) s

  abbrev pub note_drift : FlowIdentity → Option String → ℕ → Method Unit
  note_drift identity none epoch = pure tt
  note_drift identity (some stored) epoch =
      audit flow_drift_detected
        (flow (record {
          flow_name = identity.name;
          stored_fingerprint = stored;
          current_fingerprint = identity.fingerprint;
        }))
        epoch

  abbrev pub is_current : FlowIdentity → Option String → Bool
  is_current identity none = false
  is_current identity (some stored) = stored == identity.fingerprint

  abbrev pub record_flow : FlowIdentity → ℕ → Option String → Method Unit
  record_flow identity epoch stored s =
      if is_current identity stored
      then (ok tt, s)
      else (do
        note_drift identity stored epoch
        on_mirror (call (Store.set_flow_fingerprint identity.fingerprint epoch)))
          s

  abbrev pub detect_for : Option FlowIdentity → ℕ → Method Unit
  detect_for none epoch = pure tt
  detect_for (some identity) epoch = do
    stored ← on_mirror (call Store.get_flow_fingerprint)
    record_flow identity epoch stored

  -- `_detect_flow_drift`
  unfoldable pub detect_flow_drift : ℕ → Method Unit
  detect_flow_drift epoch = detect_for self.flow_identity epoch

  unfoldable pub clear_contributions : List Class → Method Unit
  clear_contributions [] = pure tt
  clear_contributions (aggregator ∷ aggregators) = do
    on_durable (Durable.clear_contribution self.session_id (f.classes.operator_id aggregator))
    clear_contributions aggregators

  -- `_prepare_redrive`
  unfoldable pub prepare_redrive : Method Unit
  unfolding clear_contributions
  prepare_redrive s =
      (do clear_contributions s.aggregators; λ t. (ok tt, record t { fresh_deadline = true })) s

  -- `_audit_session_parked`
  unfoldable pub audit_session_parked : ℕ → Method Unit
  audit_session_parked epoch = audit session_parked no_info epoch

  abbrev pub about : String → Option String → AuditInfo
  about capability_id error =
      capability
        (record { capability_id = capability_id; action = none; parameters = []; error = error })

  -- `_audit_capability`
  unfoldable pub audit_capability : String → ℕ → Method Unit
  audit_capability capability_id epoch = audit capability_activated (about capability_id none) epoch

  unfoldable pub audit_capabilities : List String → ℕ → Method Unit
  unfolding audit_capability
  audit_capabilities [] epoch = pure tt
  audit_capabilities (capability_id ∷ ids) epoch = do
    audit_capability capability_id epoch
    audit_capabilities ids epoch

  -- The activator of `_run`, with `audit_terminal_activation_failure` as its callback.
  abbrev pub activation : ℕ → Activation Session
  activation epoch = record {
    registered = self.registered_caps;
    namespace_id = self.namespace_id;
    max_attempts = self.retry_policy.max_attempts;
    cool_off = λ capability_id n. f.backoff_delay self.retry_policy capability_id n;
    construct = f.construct;
    activate = f.activate;
    on_terminal_failure = λ capability_id e.
        audit capability_activation_failed (about capability_id (some (f.str_error e))) epoch;
  }

  abbrev pub on_activator : {A : Type 0} → Activating f.classes (activation 0) A → Method A
  on_activator op s = let (r, (v, t)) = op (s.activator, s) in (r, record t { activator = v })

  -- `_refresh_capabilities`
  unfoldable pub refresh_capabilities : List DataPoint → ℕ → Method (Dict String Class)
  unfolding refresh audit_capabilities
  refresh_capabilities view epoch s =
      (do
        capabilities ← on_activator (refresh f.classes (activation epoch) view s.catalog s.now)
        λ t.
            (do
              audit_capabilities
                  (filter (λ i. not (contains i t.activated_seen)) (keys t.activator.activated))
                  epoch
              λ u. (
                ok capabilities,
                record u { activated_seen = u.activated_seen ++ keys u.activator.activated },
              ))
              t)
        s

  -- `_flush_write_behind`
  unfoldable pub flush_write_behind : Method Unit
  flush_write_behind = do _ ← on_archive (Archive.flush self.codec); pure tt

  -- `_resolve_audit_cipher`; the provider of a namespace's cipher raises, or has one or none
  abbrev pub cipher_or_none : Option ValueCipher ⊎ Error → Option ValueCipher
  cipher_or_none (inl cipher) = cipher
  cipher_or_none (inr e) = none
