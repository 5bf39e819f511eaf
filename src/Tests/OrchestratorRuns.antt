-- ===== src/Tests/OrchestratorRuns.antt =====
-- Runs of orcastork/orchestrator/orchestrator.py on a flow of two operators.
use orcastork.Base.{
  Bool, inr, inl, ok, raise, ltb, ◌&&◌, ◌==◌, string_eq, state_mirror, ℕ, all, filter, other_error,
  ◌⊎◌, is_empty, List, String, [], any, contains, false, if◌then◌else◌, map, nat_beq, none, not,
  refl, some, true, ◌++◌, ◌+◌, ◌∷◌, ◌≡◌,
}
use orcastork.Inbox.{Parsers, Message}
use orcastork.Mirror.{Act}
use orcastork.Orchestrator.Draining.{drain_inbox}
use orcastork.Orchestrator.Deliveries.{drain_inbox-delivered}
use orcastork.Orchestrator.Redaction.{IsAlike, merge_bookkeeping-redacted}
use orcastork.DataPoint.Collection.{MergeKind, MergeResult}
use orcastork.Orchestrator.Merging.{merge_bookkeeping, Emitted, merge_emissions}
use orcastork.Mirror.Reads
use orcastork.Rerun.{operator_delta, is_scheduled}
use orcastork.Scheduling.{is_ready}
use orcastork.Graph.{is_tripped}
use orcastork.Orchestrator.Planning.{GatherPlan, plan}
use orcastork.Orchestrator.Launching.{launchable, settled}
use orcastork.Orchestrator.Passes.{plan-launchable, plan-settled}
use orcastork.Orchestrator.State.{Running, Flow, Settings, Session, OperatorPolicy, added_only}
use orcastork.Orchestrator.Completions.{Completed, record_completion}
use orcastork.Orchestrator.Dispositions.{
  IsCounted, IsRetried, IsAdvanced, record_completion-disposed,
}
use orcastork.Base.Dict.{delete, get, put}
use orcastork.DataPoint.{Class, DataPoint}
use orcastork.Classes.{Classes}
use orcastork.Audit
use orcastork.Archive
use orcastork.Inbox
use orcastork.Lock
use orcastork.Mirror
use orcastork.Orchestrator.Accounting.{tracked, documents, merge_emissions-tracked}
use orcastork.Archive.Buffering.{sealed_row}
use orcastork.Tests.SchedulingRuns.{flow}
use orcastork.Tests.MirrorRuns.{seen, ready}
use orcastork.Tests.SinkRuns.{codec, text_of}

abbrev name_of : Class → String
name_of t = if nat_beq t 10 then "fetch" else "score"

abbrev classes : Classes
classes = record flow { operator_id = name_of }

abbrev policy : OperatorPolicy
policy = record {
  rerun_on_new_data = true;
  rerun_on = added_only;
  debounce = none;
  max_cycles = none;
  timeout = none;
  retry = some (record { max_attempts = 3 });
}

-- Class 1 is personal data, and the others are not; class 3 is only counted.
abbrev pub tested : Flow
tested = record {
  classes = classes;
  config = λ t. record {
    pii = nat_beq t 1;
    ephemeral = nat_beq t 4;
    audit_every_emission = not (nat_beq t 3);
  };
  audit_summary = λ _. none;
  policy = λ _. policy;
  is_aggregator = λ _. false;
  interim_refresh = λ _. false;
  str_value = text_of;
  str_error = λ _. "error";
  str_count = λ _. "1";
  backoff_delay = λ _ _ n. n + 1;
  construct = λ _. none;
  activate = λ _ _ _ _. none;
}

abbrev pub self : Settings
self = record {
  session_id = "s";
  namespace_id = "n";
  session_deadline = 300;
  park_after = some 60;
  lease_renew_interval = 10;
  lease_ttl = 30;
  max_inbox_deliveries = 2;
  operators = 10 ∷ 11 ∷ [];
  capabilities = [];
  registered_caps = [];
  seed = [];
  completes_when = none;
  flow_identity = none;
  retry_policy = record { max_attempts = 2 };
  operators_by_id = ("fetch", 10) ∷ ("score", 11) ∷ [];
  codec = codec;
}

abbrev pub session : Session
session = record {
  world = ready;
  inbox = Inbox.fresh;
  audit = Audit.fresh;
  archive = Archive.fresh;
  durable = record { documents = []; sets = []; contributions = []; max_epochs = [] };
  lock = Lock.fresh;
  catalog = record { permitted = []; stored = []; preferred = []; operators = [] };
  now = 7;
  audit_cipher = none;
  coalesced_audits = [];
  reobserved_audits = [];
  undeclared_emissions = [];
  gathering = 10 ∷ 11 ∷ [];
  aggregators = [];
  runs = [];
  failed_attempts = [];
  prev_caps = [];
  watermarks = [];
  fresh_deadline = false;
  breaker = record { caps = []; counts = [] };
  debounce = record { default_window = 5; due = [] };
  retries = record { default_window = 5; due = [] };
  running = ("fetch", record { observed_revision = 4 }) ∷ [];
  activator = record { activated = []; failures = [] };
  activated_seen = [];
  dead_letters = [];
  flushed = false;
}

abbrev pub of_fetch : DataPoint → Emitted
of_fetch d = record { operator_id = some "fetch"; data_point = d }

abbrev signals : List Emitted
signals = of_fetch (seen "a" 1) ∷ of_fetch (seen "b" 2) ∷ of_fetch (seen "a" 3) ∷ []

abbrev merged : Session
merged = (merge_emissions tested self signals 3 session).1

merge_emissions-tracked_example :
    (tracked tested self "url" merged ≡ tracked tested self "url" session + 3)
    × (merged.archive.buffer ≡ [] ++ map (sealed_row codec) (documents tested self 3 signals))
unfolding merge_emissions Mirror.write get put any contains Audit.append Archive.archive
    Mirror.rehydrate is_empty orcastork.DataPoint.key_beq orcastork.DataPoint.identity_key
    Audit.append_many Archive.archive_many
merge_emissions-tracked_example = merge_emissions-tracked tested self signals 3 "url" session refl

abbrev outcomes : List MergeResult
outcomes =
    record { kind = MergeKind.added; data_point = seen "a" 1 }
    ∷ record { kind = MergeKind.updated; data_point = seen "b" 2 }
    ∷ []

alike : (v w : String) (m n : ℕ) → IsAlike tested self (of_fetch (seen v m)) (of_fetch (seen w n))
alike v w m n = record {
  operator_id = refl;
  cls = refl;
  type = refl;
  summary = refl;
  value = λ h. cc;
}

merge_bookkeeping-redacted_example :
    (merge_bookkeeping tested self
      (of_fetch (seen "a" 1) ∷ of_fetch (seen "b" 2) ∷ [])
      outcomes
      3
      session).1.audit
    ≡ (merge_bookkeeping tested self
        (of_fetch (seen "x" 1) ∷ of_fetch (seen "y" 4) ∷ [])
        outcomes
        3
        session).1.audit
merge_bookkeeping-redacted_example =
    merge_bookkeeping-redacted tested self (of_fetch (seen "a" 1) ∷ of_fetch (seen "b" 2) ∷ [])
      (of_fetch (seen "x" 1) ∷ of_fetch (seen "y" 4) ∷ []) outcomes 3 session
      (alike "a" "x" 1 1, (alike "b" "y" 2 4, tt)) refl

-- "fetch" runs, and "score" is ready and has not run.
abbrev planned : GatherPlan
planned = record {
  runnable =
      record {
        operator = 11;
        delta = record {
          added = seen "a" 1 ∷ [];
          updated = [];
          newly_available_caps = [];
          is_first_invocation = true;
        };
        is_rerun = false;
        is_retry = false;
      }
      ∷ [];
  not_yet_run = 11 ∷ [];
  next_due_in = none;
  present_types = 1 ∷ [];
  available_types = [];
}

abbrev started : Session
started = record session { world = (Mirror.write (seen "a" 1 ∷ []) 3 ready).1 }

plan-launchable_example :
    (all (launchable tested self [] false (1 ∷ []) started) planned.runnable ≡ true)
    × (started ≡ record started { debounce = started.debounce })
unfolding plan Mirror.write get put any all filter Reads.snapshot operator_delta is_scheduled
    is_ready contains is_empty is_tripped Mirror.rehydrate
plan-launchable_example =
    plan-launchable tested self [] (seen "a" 1 ∷ []) false started {p = planned} {t = started} refl

-- Once "score" runs too, nothing is left to launch or to wait for.
abbrev busy : Session
busy = record started {
  running =
      ("fetch", record { observed_revision = 0 })
      ∷ ("score", record { observed_revision = 1 })
      ∷ [];
}

plan-settled_example : all (settled tested self [] false (1 ∷ []) busy) (10 ∷ 11 ∷ []) ≡ true
unfolding plan get
plan-settled_example =
    plan-settled tested self [] (seen "a" 1 ∷ []) false busy
      {p = record {
        runnable = [];
        not_yet_run = [];
        next_due_in = none;
        present_types = 1 ∷ [];
        available_types = [];
      }}
      {t = busy} refl refl refl

abbrev failing : Completed
failing = record { operator_id = "fetch"; error = some other_error; run_seconds = 2 }

abbrev recorded : Session
recorded = (record_completion tested self failing 3 session).1

record_completion-disposed_example :
    (run : Running) × IsCounted tested self failing run session recorded
    × (IsRetried tested self failing session recorded
        ⊎ IsAdvanced tested self failing run session recorded)
unfolding record_completion get put delete Audit.append is_tripped orcastork.Graph.record_run
record_completion-disposed_example =
    record_completion-disposed tested self failing 3 session 10 {t = recorded} refl refl

-- One entry that parses, and two that do not.
abbrev pub parsers : Parsers
parsers = record {
  Document = String;
  loads = λ text. if text == "bad" then inr "no JSON" else inl text;
  parse_data_point = λ text. ok (seen text 1);
}

abbrev pub message : String → String → Bool → ℕ → Message
message entry_id payload claimed n = record {
  entry_id = entry_id;
  payload = payload;
  delivery_count = n;
  claimed = claimed;
}

abbrev delivered : Session
delivered = record session {
  inbox = record Inbox.fresh {
    messages =
        message "h" "b" false 0
        ∷ message "i" "a" true 1
        ∷ message "j" "bad" false 0
        ∷ message "k" "bad" true 2
        ∷ [];
  };
}

-- A mirror that fails.
abbrev broken : List DataPoint → ℕ → Act (ℕ × List MergeResult)
broken ds epoch w = (raise state_mirror, w)

abbrev drained : Session
drained = (drain_inbox tested self broken parsers 3 delivered).1

drain_inbox-delivered_example :
    all (λ m. m.claimed && ltb m.delivery_count self.max_inbox_deliveries) drained.inbox.messages
    ≡ true
unfolding drain_inbox contains all Audit.append Inbox.reclaim Inbox.consume Inbox.quarantine
drain_inbox-delivered_example =
    drain_inbox-delivered tested self broken parsers 3 delivered drained
      (refl, (refl, (refl, (refl, tt)))) refl
