-- ===== src/Availability/Refresh.antt =====
-- `CapabilityActivator` of orcastork/capabilities/availability.py: the capabilities that are available and
-- not activated yet are activated, each after those that it requires.
use orcastork.Base.Dict.{Dict, delete, get, has, keys, put}
use orcastork.Base.{
  false, true, Bool, Error, Exec, List, Option, String, [], contains, filter, if◌then◌else◌,
  is_empty, key_error, length, none, not, ok, pure, some, throw, ℕ, zero, suc, ◌&&◌, ◌>>=◌, ◌>>◌,
  ◌∷◌, string_eq, map,
}
use orcastork.DataPoint.{Class, DataPoint}
use orcastork.Classes.{Classes}
use orcastork.Catalog
use orcastork.Catalog.{Catalog}
use orcastork.Availability.{Registered, requires_available, compute_available}
use orcastork.Availability.Activation.{Failures, may_attempt, record_failure}

-- The fields that change.
pub record Activator : Type 0 where
  pub activated : Dict String Class
  pub failures : Failures

-- The fields that do not, over what else the callback of a terminal failure changes. The constructor of a
-- capability and its `activate`, at an instant, are the flow's: each has an error, or none.
pub record Activation (S : Type 0) : Type 0 where
  pub registered : Registered
  pub namespace_id : String
  pub max_attempts : ℕ
  pub cool_off : String → ℕ → ℕ
  pub construct : Class → Option Error
  pub activate : ℕ → Class → Catalog.Settings → List DataPoint → Option Error
  pub on_terminal_failure : String → Error → Exec S Unit

abbrev or_no_settings : Option Catalog.Settings → Catalog.Settings
or_no_settings none = []
or_no_settings (some credentials) = credentials

-- `{id: self._activated[id] for id in available_ids if id in self._activated}`
abbrev pub expose : String → Option Class → Dict String Class → Dict String Class
expose capability_id none rest = rest
expose capability_id (some capability) rest = (capability_id, capability) ∷ rest

module _ {S : Type 0} (c : Classes) (a : Activation S) where
  abbrev pub Activating : Type 0 → Type 0
  Activating = Exec (Activator × S)

  abbrev pub notify : Bool → String → Error → Activating Unit
  notify false capability_id e s = (ok tt, s)
  notify true capability_id e (v, s) =
      let (r, t) = a.on_terminal_failure capability_id e s in (r, (v, t))

  abbrev pub on_failures : {A : Type 0} → Exec Failures A → Activating A
  on_failures op (v, s) =
      let (r, failures) = op v.failures in (r, (record v { failures = failures }, s))

  -- `_record_failure`
  unfoldable pub fail : String → Error → ℕ → Activating Unit
  unfolding record_failure
  fail capability_id e now = do
    terminal ←
        on_failures (record_failure a.max_attempts (a.cool_off capability_id) capability_id now)
    notify terminal capability_id e

  abbrev pub activated_as : String → Class → Activating Unit
  activated_as capability_id capability (v, s) = (
    ok tt,
    (
      record {
        activated = put capability_id capability v.activated;
        failures = delete capability_id v.failures;
      },
      s,
    ),
  )

  -- `try: await capability.activate(…)`
  abbrev pub outcome_of : String → Class → Option Error → ℕ → Activating Unit
  outcome_of capability_id capability none now = activated_as capability_id capability
  outcome_of capability_id capability (some e) now = fail capability_id e now

  abbrev pub built : Option Error → Activating Unit → Activating Unit
  built none next = next
  built (some e) next = throw e

  module _ (view : List DataPoint) (catalog : Catalog) (now : ℕ) where
    abbrev pub credentials_of : String → Catalog.Settings
    credentials_of capability_id =
        or_no_settings (Catalog.credentials a.namespace_id capability_id catalog)

    abbrev pub activate_class : String → Option Class → Activating Unit
    activate_class capability_id none = throw key_error
    activate_class capability_id (some capability) = built (a.construct capability) (
        outcome_of capability_id capability
          (a.activate now capability (credentials_of capability_id) view) now)

    -- The body of `for capability_id in ready`.
    unfoldable pub activate_one : String → Activating Unit
    unfolding fail
    activate_one capability_id = activate_class capability_id (get capability_id a.registered)

    unfoldable pub activate_each : List String → Activating Unit
    unfolding activate_one
    activate_each [] = pure tt
    activate_each (capability_id ∷ ids) = do activate_one capability_id; activate_each ids

    abbrev pub requires_of : Option Class → List Class
    requires_of none = []
    requires_of (some capability) = c.requires capability

    abbrev pub may_follow : Activator → String → Bool
    may_follow v capability_id =
        requires_available c (requires_of (get capability_id a.registered)) (keys v.activated)
          a.registered

    -- `while pending`; a round takes one from the pending at least, so their number is fuel enough
    unfoldable pub activate_pending : ℕ → List String → Activating Unit
    unfolding activate_each
    activate_pending zero pending s = (ok tt, s)
    activate_pending (suc fuel) pending s =
        let ready = filter (may_follow s.0) pending in
        (if is_empty ready then pure tt else (do
          activate_each ready
          activate_pending fuel
              (filter (λ capability_id. not (contains capability_id ready)) pending)))
          s

    abbrev pub is_pending : Activator → String → Bool
    is_pending v capability_id =
        not (has capability_id v.activated) && may_attempt capability_id now v.failures

    abbrev pub exposed : Activator → List String → Dict String Class
    exposed v [] = []
    exposed v (capability_id ∷ ids) =
        expose capability_id (get capability_id v.activated) (exposed v ids)

    abbrev pub available_ids : List String
    available_ids =
        compute_available c a.registered (Catalog.permitted_capabilities a.namespace_id catalog)
          (map (λ d. d.cls) view)

    unfoldable pub refresh : Activating (Dict String Class)
    unfolding activate_pending compute_available
    refresh s =
        let pending = filter (is_pending s.0) available_ids in
        (do activate_pending (length pending) pending; λ t. (ok (exposed t.0 available_ids), t)) s
