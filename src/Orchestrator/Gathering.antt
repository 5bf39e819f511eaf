-- ===== src/Orchestrator/Gathering.antt =====
-- The gathering loop of orcastork/orchestrator/orchestrator.py, along a trace of what the tasks and the other
-- processes do while it waits.
use orcastork.Base.{
  Bool, List, Option, Result, String, [], false, if◌then◌else◌, is_empty, leb, ltb, nat_beq, none,
  ok, pure, raise, some, true, ℕ, ◌+◌, ◌>>=◌, ◌>>◌, ◌∷◌, string_eq,
}
use orcastork.Base.Dict.{Dict, keys, put}
use orcastork.DataPoint.{Class, DataPoint}
use orcastork.Completion.{Condition, is_satisfied}
use orcastork.Inbox
use orcastork.Inbox.{Parsers}
use orcastork.Store
use orcastork.Mirror
use orcastork.Mirror.{call}
use orcastork.Mirror.Reads
use orcastork.Rerun.{clear}
use orcastork.Orchestrator.State.{Flow, Method, Session, Settings, on_inbox, on_mirror}
use orcastork.Orchestrator.Planning.{CapabilityView, GatherPlan, Runnable, plan}
use orcastork.Orchestrator.Completions.{Signal, consume_batch, emissions}
use orcastork.Orchestrator.Merging.{merge_emissions}
use orcastork.Orchestrator.Draining.{drain_inbox}
use orcastork.Orchestrator.Setup.{refresh_capabilities}
use orcastork.Orchestrator.Waiting.{
  InboxWait, has_come, park_at, remaining_session_budget, renew_lease_if_due, wait_for_inbox,
}

-- What happens during one wait of the loop, and after how many ticks: the entries that others append to
-- the inbox, by id and payload; and the signals on the queue, if it is the queue that is waited for.
pub record Wake : Type 0 where
  pub elapsed : ℕ
  pub delivered : List (String × String)
  pub signals : List Signal

-- One call of `_gather`: its waits, and what the queue holds at its end, before and after the cancels. If
-- the run goes on to finalize: the entries that others append while it aggregates, audits and flushes,
-- which do not read the inbox; and those that they append between the check of the inbox and the
-- release of the lock, or the next turn.
pub record Trace : Type 0 where
  pub wakes : List Wake
  pub queued : List Signal
  pub cancelled : List Signal
  pub closing : List (String × String)
  pub late : List (String × String)

-- `sorted({…})`
abbrev pub insert_mark : Option ℕ → List ℕ → List ℕ
insert_mark none marks = marks
insert_mark (some mark) [] = mark ∷ []
insert_mark (some mark) (m ∷ marks) =
    let rest = insert_mark (some mark) marks in
    if nat_beq mark m then m ∷ marks else if ltb mark m then mark ∷ m ∷ marks else m ∷ rest

abbrev pub marks_of : Dict String (Option ℕ) → List ℕ
marks_of [] = []
marks_of ((_, mark) ∷ watermarks) = insert_mark mark (marks_of watermarks)

abbrev pub satisfies : Flow → Option Condition → List DataPoint → Bool
satisfies f none view = true
satisfies f (some condition) view = is_satisfied f.classes condition view

abbrev pub let_pass : ℕ → Method Unit
let_pass elapsed s = (ok tt, record s { now = s.now + elapsed })

unfoldable pub deliver_each : List (String × String) → Method Unit
deliver_each [] = pure tt
deliver_each ((entry_id, payload) ∷ entries) = do
  _ ← on_inbox (Inbox.append_serialized entry_id payload)
  deliver_each entries

-- `try: … finally: …`; a trace that ends inside the `try` gives no answer, and does not leave it
abbrev pub leave : {A : Type 0} → Result A → Result (Unit {0}) → Result A
leave r (raise e) = raise e
leave r (ok _) = r

abbrev pub finish_with :
    {A : Type 0} → Method Unit → Result (Option A) × Session → Result (Option A) × Session
finish_with cleanup (ok none, t) = (ok none, t)
finish_with cleanup (ok (some a), t) = let (c, u) = cleanup t in (leave (ok (some a)) c, u)
finish_with cleanup (raise e, t) = let (c, u) = cleanup t in (leave (raise e) c, u)

abbrev pub finally_do : {A : Type 0} → Method (Option A) → Method Unit → Method (Option A)
finally_do body cleanup s = finish_with cleanup (body s)

module _ (f : Flow) (self : Settings) (p : Parsers) where
  abbrev pub id_of : Class → String
  id_of = f.classes.operator_id

  abbrev pub consumed : Runnable → Session → Session
  consumed runnable s =
      if runnable.is_retry
      then record s { retries = clear (id_of runnable.operator) s.retries }
      else if runnable.is_rerun
      then record s { debounce = clear (id_of runnable.operator) s.debounce }
      else s

  -- The loop `for runnable in plan.runnable`.
  unfoldable pub launch_each : List Runnable → List String → ℕ → Session → Session
  launch_each [] available_ids observed s = s
  launch_each (runnable ∷ more) available_ids observed s = launch_each more available_ids observed (
      consumed runnable (record s {
        prev_caps = put (id_of runnable.operator) available_ids s.prev_caps;
        running = put (id_of runnable.operator) (record { observed_revision = observed }) s.running;
      }))

  abbrev pub launched : CapabilityView → ℕ → Bool → GatherPlan → Method (Bool × GatherPlan)
  launched capabilities observed satisfied chosen s =
      (ok (satisfied, chosen), launch_each chosen.runnable (keys capabilities) observed s)

  -- The body of the loop up to its waits: whether the session is complete, and the plan.
  unfoldable pub gather_pass : ℕ → Method (Bool × GatherPlan)
  unfolding drain_inbox refresh_capabilities plan launch_each
  gather_pass epoch = do
    drain_inbox f self Mirror.write p epoch
    view ← on_mirror (Reads.snapshot self.session_id)
    observed ← on_mirror (Reads.revision self.session_id)
    capabilities ← refresh_capabilities f self view epoch
    chosen ← plan f self capabilities view (satisfies f self.completes_when view)
    launched capabilities observed (satisfies f self.completes_when view) chosen

  abbrev pub Rest : Type 0
  Rest = Option (Wake × (ℕ → Method (Option Bool)))

  -- `await queue.get()` and what is queued behind it, merged and recorded; a trace without signals
  -- leaves the loop waiting.
  abbrev pub on_signals : ℕ → ℕ → Rest → Method (Option Bool)
  on_signals epoch last_renew none s = (ok none, s)
  on_signals epoch last_renew (some (wake, resume)) s =
      if is_empty wake.signals
      then (ok none, s)
      else (do
        let_pass wake.elapsed
        deliver_each wake.delivered
        consume_batch f self wake.signals epoch
        resume last_renew)
          s

  abbrev pub on_sleep : ℕ → ℕ → Rest → Method (Option Bool)
  on_sleep last_renew due_in none = pure none
  on_sleep last_renew due_in (some (wake, resume)) = do
    let_pass due_in
    deliver_each wake.delivered
    resume last_renew

  abbrev pub arrival_of : Wake → ℕ → Option ℕ
  arrival_of wake now = if is_empty wake.delivered then none else some (now + wake.elapsed)

  abbrev pub deliver_by : Option ℕ → List (String × String) → Method Unit
  deliver_by arrival entries s =
      if has_come arrival s.now then deliver_each entries s else (ok tt, s)

  abbrev pub waited :
      Option ℕ
      → List (String × String)
      → (ℕ → Method (Option Bool))
      → Option InboxWait
      → Method (Option Bool)
  waited arrival entries resume none = pure none
  waited arrival entries resume (some wait) =
      if wait.parked
      then pure (some true)
      else (do deliver_by arrival entries; resume wait.last_renew)

  abbrev pub on_inbox_wait : ℕ → ℕ → ℕ → Rest → Method (Option Bool)
  on_inbox_wait epoch deadline last_renew none s = (ok none, s)
  on_inbox_wait epoch deadline last_renew (some (wake, resume)) s =
      (do
        wait ←
            wait_for_inbox self (arrival_of wake s.now) (deadline + 2) epoch deadline last_renew
              (park_at self s)
        waited (arrival_of wake s.now) wake.delivered resume wait)
        s

  abbrev pub when_idle : ℕ → ℕ → ℕ → Rest → Bool → Option ℕ → Method (Option Bool)
  when_idle epoch deadline last_renew rest satisfied (some due_in) = on_sleep last_renew due_in rest
  when_idle epoch deadline last_renew rest true none = pure (some false)
  when_idle epoch deadline last_renew rest false none = on_inbox_wait epoch deadline last_renew rest

  abbrev pub proceed : ℕ → ℕ → ℕ → Rest → Bool × GatherPlan → Method (Option Bool)
  proceed epoch deadline last_renew rest (satisfied, chosen) s =
      if is_empty s.running
      then when_idle epoch deadline last_renew rest satisfied chosen.next_due_in s
      else on_signals epoch last_renew rest s

  abbrev pub one_round : ℕ → ℕ → Rest → ℕ → Method (Option Bool)
  one_round epoch deadline rest last_renew s =
      if leb deadline s.now
      then (ok (some false), s)
      else (do
        renewed ← renew_lease_if_due self epoch last_renew
        chosen ← gather_pass epoch
        proceed epoch deadline renewed rest chosen)
          s

  -- `while monotonic() < deadline`: whether the session parked
  unfoldable pub gather_loop : List Wake → ℕ → ℕ → ℕ → Method (Option Bool)
  unfolding gather_pass renew_lease_if_due wait_for_inbox deliver_each consume_batch park_at
  gather_loop [] epoch deadline last_renew = one_round epoch deadline none last_renew
  gather_loop (wake ∷ wakes) epoch deadline last_renew =
      one_round epoch deadline (some (wake, gather_loop wakes epoch deadline)) last_renew

  -- `_drain_queue`
  unfoldable pub drain_queue : List Signal → ℕ → Method Unit
  unfolding merge_emissions
  drain_queue signals epoch = merge_emissions f self (emissions signals) epoch

  -- `_drain_remaining`
  unfoldable pub drain_remaining : List Signal → List Signal → ℕ → Method Unit
  unfolding drain_queue
  drain_remaining queued cancelled epoch = do drain_queue queued epoch; drain_queue cancelled epoch

  unfoldable pub read_watermarks : List Class → Method (Dict String (Option ℕ))
  read_watermarks [] = pure []
  read_watermarks (operator ∷ operators) = do
    mark ← on_mirror (call (Store.get_watermark (id_of operator)))
    rest ← read_watermarks operators
    pure ((id_of operator, mark) ∷ rest)

  unfoldable pub prime_each : List ℕ → Method Unit
  prime_each [] = pure tt
  prime_each (mark ∷ marks) = do on_mirror (Mirror.prime_change_baseline mark); prime_each marks

  -- The locals of `_gather`, and the rehydrated watermarks.
  abbrev pub begun : Dict String (Option ℕ) → Method Unit
  begun watermarks s = (
    ok tt,
    record s {
      watermarks = watermarks;
      debounce = record s.debounce { due = [] };
      retries = record s.retries { due = [] };
      running = [];
    },
  )

  -- `_gather`
  unfoldable pub gather : Trace → ℕ → Method (Option Bool)
  unfolding gather_loop drain_remaining read_watermarks prime_each remaining_session_budget
  gather trace epoch = do
    budget ← remaining_session_budget self epoch
    λ s.
        (do
          watermarks ← read_watermarks s.gathering
          begun watermarks
          prime_each (marks_of watermarks)
          finally_do (gather_loop trace.wakes epoch (s.now + budget) s.now)
              (drain_remaining trace.queued trace.cancelled epoch))
          s
