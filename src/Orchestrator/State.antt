-- ===== src/Orchestrator/State.antt =====
-- The fields of the orchestrator of orcastork/orchestrator/orchestrator.py, and what it is built from. A
-- method is a function on these fields and on the ports that it calls, which are the in-memory adapters
-- of one session.
use orcastork.Base.Dict.{Dict}
use orcastork.Base.{Bool, Exec, List, Option, String, ℕ, Error}
use orcastork.DataPoint.{Class, DataPoint}
use orcastork.DataPoint.Hashing.{Value}
use orcastork.Classes.{Classes}
use orcastork.Mirror.{Act, World}
use orcastork.Inbox.{InboxState}
use orcastork.Audit.{AuditState}
use orcastork.Archive.{ArchiveState, Codec}
use orcastork.Durable.{DurableState}
use orcastork.Lock.{LockState}
use orcastork.Graph.{CircuitBreaker}
use orcastork.Catalog
use orcastork.Catalog.{Catalog}
use orcastork.Completion.{Condition}
use orcastork.Availability.Refresh.{Activator}
use orcastork.Rerun.{DebounceController}

-- `DataPointTypeConfig`, the class variable of a data point class
pub record DataPointTypeConfig : Type 0 where
  pub pii : Bool
  pub ephemeral : Bool
  pub audit_every_emission : Bool

pub data RerunOn : Type 0 where
  added_or_updated added_only : RerunOn

-- `RetryPolicy`; its schedule of delays is drawn by `random`, and is `backoff_delay` of the flow
pub record RetryPolicy : Type 0 where
  pub max_attempts : ℕ

pub record OperatorPolicy : Type 0 where
  pub rerun_on_new_data : Bool
  pub rerun_on : RerunOn
  pub debounce : Option ℕ
  pub max_cycles : Option ℕ
  pub timeout : Option ℕ
  pub retry : Option RetryPolicy

-- What a flow declares, and how Python prints a value, an error and a count.
pub record Flow : Type 0 where
  pub classes : Classes
  pub config : Class → DataPointTypeConfig
  pub audit_summary : DataPoint → Option String
  pub policy : Class → OperatorPolicy
  pub is_aggregator : Class → Bool
  pub interim_refresh : Class → Bool
  pub str_value : Value → String
  pub str_error : Error → String
  pub str_count : ℕ → String
  pub backoff_delay : RetryPolicy → String → ℕ → ℕ
  -- the constructor of a capability and its `activate`: an error, or none
  pub construct : Class → Option Error
  pub activate : ℕ → Class → Catalog.Settings → List DataPoint → Option Error

-- `ValueCipher`; `is_null` is `isinstance(cipher, NullCipher)`
pub record ValueCipher : Type 0 where
  pub encrypt : String → String
  pub is_null : Bool

-- `FlowIdentity`
pub record FlowIdentity : Type 0 where
  pub name : String
  pub fingerprint : String

-- The arguments of the constructor, and what it computes once.
pub record Settings : Type 0 where
  pub session_id : String
  pub namespace_id : String
  pub session_deadline : ℕ
  pub park_after : Option ℕ
  pub lease_renew_interval : ℕ
  pub lease_ttl : ℕ
  pub max_inbox_deliveries : ℕ
  pub operators : List Class
  pub operators_by_id : Dict String Class
  pub capabilities : List Class
  pub registered_caps : Dict String Class
  pub seed : List DataPoint
  pub completes_when : Option Condition
  pub flow_identity : Option FlowIdentity
  pub retry_policy : RetryPolicy
  pub codec : Codec

-- `_Running`, without its task
pub record Running : Type 0 where
  pub observed_revision : ℕ

-- `DeadLetter`
pub record DeadLetter : Type 0 where
  pub operator_id : String
  pub reason : String

-- The fields of the orchestrator, the ports, and the locals of `_gather` and `_run`; `now` is the clock's reading.
pub record Session : Type 0 where
  pub world : World
  pub inbox : InboxState
  pub audit : AuditState
  pub archive : ArchiveState
  pub durable : DurableState
  pub lock : LockState
  pub catalog : Catalog
  pub now : ℕ
  pub audit_cipher : Option ValueCipher
  pub coalesced_audits : Dict String ℕ
  pub reobserved_audits : Dict String ℕ
  pub undeclared_emissions : List (String × String)
  pub gathering : List Class
  pub aggregators : List Class
  pub runs : Dict String ℕ
  pub failed_attempts : Dict String ℕ
  pub prev_caps : Dict String (List String)
  pub watermarks : Dict String (Option ℕ)
  pub fresh_deadline : Bool
  pub breaker : CircuitBreaker
  pub debounce : DebounceController
  pub retries : DebounceController
  pub running : Dict String Running
  pub activator : Activator
  pub activated_seen : List String
  pub dead_letters : List DeadLetter
  pub flushed : Bool

abbrev pub Method : Type 0 → Type 0
Method = Exec Session

-- The awaits of the ports.
module _ {A : Type 0} where
  abbrev pub on_mirror : Act A → Method A
  on_mirror op s = let (r, w) = op s.world in (r, record s { world = w })

  abbrev pub on_inbox : Exec InboxState A → Method A
  on_inbox op s = let (r, i) = op s.inbox in (r, record s { inbox = i })

  abbrev pub on_audit : Exec AuditState A → Method A
  on_audit op s = let (r, a) = op s.audit in (r, record s { audit = a })

  abbrev pub on_archive : Exec ArchiveState A → Method A
  on_archive op s = let (r, a) = op s.archive in (r, record s { archive = a })

  abbrev pub on_durable : Exec DurableState A → Method A
  on_durable op s = let (r, d) = op s.durable in (r, record s { durable = d })

  abbrev pub on_lock : Exec LockState A → Method A
  on_lock op s = let (r, l) = op s.lock in (r, record s { lock = l })
