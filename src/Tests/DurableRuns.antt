-- ===== src/Tests/DurableRuns.antt =====
-- Runs of orcastork/adapters/memory/durable_store.py, orcastork/aggregation/helpers.py and
-- orcastork/operators/effects.py.
use orcastork.Base.Dict.{delete, get, put}
use orcastork.Base.{
  Bool, Exec, all, List, [], arith, false, if◌then◌else◌, length, none, ok, other_error, raise,
  refl, some, true, ℕ, ◌+◌, ◌>>◌, ◌∷◌, ◌≡◌, ◌≤◌,
}
use orcastork.DataPoint.Hashing.{str}
use orcastork.Durable.{DurableState, upsert, add_to_set, mark_contribution, version_of}
use orcastork.Durable.Helpers.{AggregationHelpers, write_over, final}
use orcastork.Durable.Versions.{
  Call, upserts, adds, marks, perform_all, stored, Refused, no_lost_update,
}
use orcastork.Durable.Finality.{final_kept}
use orcastork.Store
use orcastork.Store.Fencing.{claim}
use orcastork.Store.{SessionState, pending, committed}
use orcastork.EffectGuard.{EffectGuard, once, rerun, skip}
use orcastork.EffectGuard.Steps.{
  Event, Ledger, claims, recovers, returns, fails, dies, elsewhere, count, happen_all, mark,
}
use orcastork.EffectGuard.Firings.{fires_once_per_epoch}
use orcastork.EffectGuard.Spending.{skip_fires_once}
use orcastork.EffectGuard.Settling.{settled_fires_no_more}

abbrev idle : Ledger
idle = record { running = []; fired = [] }

abbrev empty : DurableState
empty = record { documents = []; sets = []; contributions = []; max_epochs = [] }

abbrev first : DurableState
first = (upsert "report" "s" (str "draft") 0 1 none none empty).1

no_lost_update_example :
    Refused
      (upsert "report" "s" (str "late") 0 2 none none (perform_all (marks "s" "agg" 1 ∷ []) first))
      (perform_all (marks "s" "agg" 1 ∷ []) first)
unfolding upsert get
no_lost_update_example =
    no_lost_update "report" "s" (str "draft") (str "late") 0 0 1 2 none none none none
      (marks "s" "agg" 1 ∷ []) empty 1 refl (omega arith)

abbrev interim : AggregationHelpers
interim = record { session_id = "s"; operator_id = "agg"; epoch = 1; now = 5; is_final = false }

-- Another process finalizes the document between the read and the write.
abbrev finalized : List Call
finalized = upserts "report" "s" (str "done") 0 1 (some final) none ∷ []

final_kept_example :
    Refused
      (write_over interim "report" "s"
        (str "draft")
        (stored "report" "s" empty)
        (perform_all finalized empty))
      (perform_all finalized empty)
unfolding get perform_all orcastork.Durable.Versions.perform put
final_kept_example = final_kept "report" "s" interim (str "draft") finalized empty refl refl

-- A successor reclaims the mark while the body of a predecessor runs: both return, and the
-- predecessor's commit is fenced. A rerun under the successor's epoch fires no more.
abbrev history : List Event
history =
    claims 1
    ∷ claims 2
    ∷ recovers rerun 2
    ∷ elsewhere (claim "op:log" true) 2
    ∷ returns 1
    ∷ returns 2
    ∷ claims 2
    ∷ []

fires_once_per_epoch_example :
    let l = (happen_all "op" "mail" history (Store.fresh, idle)).1 in
    count 2 l.running + count 2 l.fired ≤ 1
unfolding all get
fires_once_per_epoch_example = fires_once_per_epoch "op" "mail" 2 history Store.fresh refl refl

-- Both bodies have returned: the guard lets the effect happen twice, under two epochs.
fired_twice : (happen_all "op" "mail" history (Store.fresh, idle)).1.fired ≡ 2 ∷ 1 ∷ []
unfolding happen_all all get put
fired_twice = refl

-- A failed attempt, a crash, and a successor that does not run the effect again.
abbrev cautious : List Event
cautious = claims 1 ∷ fails other_error 1 ∷ claims 1 ∷ dies 1 ∷ claims 2 ∷ recovers skip 2 ∷ []

skip_fires_once_example :
    let l = (happen_all "op" "mail" cautious (Store.fresh, idle)).1 in
    length l.running + length l.fired ≤ 1
unfolding all get
skip_fires_once_example = skip_fires_once "op" "mail" cautious Store.fresh refl refl refl

abbrev claimed : SessionState
claimed = record Store.fresh { max_epoch = 1; effects = ("op:mail", pending 1) ∷ [] }

settled_fires_no_more_example :
    let w =
      happen_all "op" "mail"
        (returns 1 ∷ claims 2 ∷ recovers rerun 2 ∷ returns 2 ∷ [])
        (claimed, record { running = 1 ∷ []; fired = [] }) in
    (mark "op" "mail" w ≡ some committed)
    × (count 2 w.1.running + count 2 w.1.fired ≤ count 2 (1 ∷ []) + count 2 [])
unfolding all get
settled_fires_no_more_example =
    settled_fires_no_more "op" "mail" 2 1 (claims 2 ∷ recovers rerun 2 ∷ returns 2 ∷ []) claimed
      (record { running = 1 ∷ []; fired = [] }) refl (omega arith) refl (omega arith)

-- `once` itself, with a successor's `once` inside its body: the commit of the outer one raises, and is
-- swallowed.
abbrev guard : ℕ → EffectGuard
guard epoch = record { operator_id = "op"; epoch = epoch }

abbrev body : Bool → Exec (SessionState × ℕ) Unit
body owns (s, sent) = (ok tt, (s, if owns then sent + 1 else sent))

abbrev overtaken : Bool → Exec (SessionState × ℕ) Unit
overtaken owns = do once (guard 2) "mail" rerun body; body owns

sent_twice :
    once (guard 1) "mail" rerun overtaken (Store.fresh, 0)
    ≡ (ok tt, (record Store.fresh { max_epoch = 2; effects = ("op:mail", committed) ∷ [] }, 2))
unfolding once get put
sent_twice = refl

-- An effect that was sent before its body raised is sent again.
abbrev failing : Bool → Exec (SessionState × ℕ) Unit
failing owns (s, sent) = (raise other_error, (s, if owns then sent + 1 else sent))

sent_again :
    (once (guard 1) "mail" skip body (once (guard 1) "mail" skip failing (Store.fresh, 0)).1).1.1
    ≡ 2
unfolding once get put delete
sent_again = refl
