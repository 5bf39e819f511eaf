-- ===== src/Tests/MirrorRuns.antt =====
-- Runs of orcastork/adapters/memory/store.py and orcastork/orchestrator/mirror.py.
use orcastork.Base.{
  is_empty, List, String, [], arith, false, ok, raise, refl, stale_epoch, true, ℕ, ◌∷◌, ◌≡◌,
}
use orcastork.Base.Dict.{put, get, values}
use orcastork.DataPoint.{DataPoint, key_eq, key_beq, identity_key}
use orcastork.DataPoint.Hashing.{str}
use orcastork.DataPoint.Collection.{observed, add_each, get-add_each}
use orcastork.Store
use orcastork.Store.{SessionState, Entry, write, apply_resolved, merge_one}
use orcastork.Store.Fencing.{write_points, claim, commit, run, run_all, predecessor_fenced}
use orcastork.Store.Invariant.{IsValid, run-IsValid}
use orcastork.Mirror
use orcastork.Mirror.{Mirror, World, resolve}
use orcastork.Mirror.Forward.{SameOutcome, forward-write}
use orcastork.Mirror.Agreement.{stored, InStep, write-InStep}
use orcastork.Mirror.Views.{InStep-reads}
use orcastork.Mirror.Reads
use orcastork.Mirror.Rehydration.{rehydrate-InStep}

abbrev pub seen : String → ℕ → DataPoint
seen v at = record {
  cls = 1;
  type = "url";
  value = str v;
  retrieved_by = "seed";
  first_retrieved = at;
  last_retrieved = at;
}

abbrev pub batch : List DataPoint
batch = seen "a" 1 ∷ seen "b" 2 ∷ seen "a" 5 ∷ []

-- an empty session, and a mirror that has not read it
abbrev start : World
start = record {
  sessions = [];
  mirror = record {
    session_id = "s";
    entries = [];
    baselines = [];
    revision = 0;
    rehydrated_at = 0;
    hydrated = false;
  };
}

abbrev pub ready : World
ready = (Mirror.rehydrate start).1

pub ready-InStep : InStep ready
unfolding Mirror.rehydrate get
ready-InStep = (rehydrate-InStep start tt).1

-- A predecessor has written the session.
abbrev filled : World
filled = record start { sessions = ("s", (run (write_points batch) 1 Store.fresh).1) ∷ [] }

rehydrate-InStep_example :
    ((Mirror.rehydrate filled).0 ≡ ok tt) × InStep (Mirror.rehydrate filled).1
unfolding get
rehydrate-InStep_example =
    rehydrate-InStep filled (run-IsValid (write_points batch) 1 Store.fresh tt)

write-InStep_example : InStep (Mirror.write batch 3 ready).1
write-InStep_example = write-InStep batch 3 ready ready-InStep

-- A mirror that has written a batch with a duplicate, read from its rehydration point on.
abbrev written : World
written = (Mirror.write batch 3 ready).1

InStep-reads_example :
    (Reads.snapshot "s" written ≡ ((Store.snapshot (stored written)).0, written))
    × (Reads.revision "s" written ≡ ((Store.revision (stored written)).0, written))
    × (Reads.change_set_since "s" 0 written
        ≡ ((Store.change_set_since 0 (stored written)).0, written))
unfolding Mirror.rehydrate Mirror.write get put identity_key key_beq is_empty
InStep-reads_example =
    InStep-reads written 0 (write-InStep batch 3 ready ready-InStep) (omega arith)

forward-write_example :
    SameOutcome
      (apply_resolved
        (values (resolve [] batch).added)
        (values (resolve [] batch).updated)
        3
        Store.fresh)
      (write batch 3 Store.fresh)
unfolding get
forward-write_example = forward-write [] Store.fresh batch 3 (λ k. refl) (λ k. tt)

predecessor_fenced_example :
    run
      (commit "mail")
      1
      (run_all ((claim "mail" true, 1) ∷ []) (run (write_points batch) 2 Store.fresh).1)
    ≡ (
      raise stale_epoch,
      run_all ((claim "mail" true, 1) ∷ []) (run (write_points batch) 2 Store.fresh).1,
    )
predecessor_fenced_example =
    predecessor_fenced (write_points batch) (commit "mail") 2 1 ((claim "mail" true, 1) ∷ [])
      Store.fresh (omega arith) (omega arith)

run-IsValid_example : IsValid (run (write_points batch) 1 Store.fresh).1
run-IsValid_example = run-IsValid (write_points batch) 1 Store.fresh tt

get-add_each_example :
    get (identity_key (seen "a" 1)) (add_each batch (record { items = [] })).items
    ≡ observed
        (identity_key (seen "a" 1))
        batch
        (get {V = DataPoint} (identity_key (seen "a" 1)) [])
get-add_each_example = get-add_each (identity_key (seen "a" 1)) batch (record { items = [] })

-- The duplicate of the batch is merged into its first observation.
write-batch : (write batch 3 Store.fresh).0 ≡ ok 1
unfolding write get merge_one identity_key key_beq
write-batch = refl
