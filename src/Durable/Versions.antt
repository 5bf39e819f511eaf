-- ===== src/Durable/Versions.antt =====
-- Optimistic concurrency: what the version of a document says of the writes since.
use orcastork.Base.Dict.{Dict, get-put_other, get-put_self, put, get}
use orcastork.Base.{
  Error, Result, eq_of_beq, ◌==◌, Bool-cases, inr, if_false, if_true, le→ltb_false, lt→ltb, nat_beq,
  ok, optimistic_concurrency, raise, stale_epoch, sym, ◌+◌, ◌≢◌, ◌≤◌, List, Option, String, [],
  arith, inl, refl, ℕ, ◌<◌, ◌∷◌, ◌≡◌, ◌⊎◌,
}
use orcastork.Base.{string_eq, pair_eq}
use orcastork.DataPoint.Hashing.{Value}
use native.Mathlib.Decide.{dec_lt}
use orcastork.Durable.{
  or_zero, StoredDocument, DurableState, version_of, upsert, replace, guard_epoch, add_to_set,
  mark_contribution, clear_contribution, document_scope,
}

-- The mutating calls of the port.
pub data Call : Type 0 where
  upserts : String → String → Value → ℕ → ℕ → Option String → Option ℕ → Call
  adds : String → String → String → String → ℕ → Call
  marks : String → String → ℕ → Call
  clears : String → String → Call

unfoldable pub perform : Call → DurableState → DurableState
unfolding upsert add_to_set mark_contribution clear_contribution
perform (upserts table key document expected epoch status at) s =
    (upsert table key document expected epoch status at s).1
perform (adds table key field value epoch) s = (add_to_set table key field value epoch s).1
perform (marks session_id operator_id epoch) s =
    (mark_contribution session_id operator_id epoch s).1
perform (clears session_id operator_id) s = (clear_contribution session_id operator_id s).1

unfoldable pub perform_all : List Call → DurableState → DurableState
perform_all [] s = s
perform_all (c ∷ cs) s = perform_all cs (perform c s)

abbrev pub scope_epoch : String → String → DurableState → ℕ
scope_epoch table key s = or_zero (get (document_scope table key) s.max_epochs)

abbrev pub under : String → ℕ → DurableState → DurableState
under scope epoch s = record s { max_epochs = put scope epoch s.max_epochs }

abbrev pub written : Value → ℕ → Option String → Option ℕ → StoredDocument
written document version status at = record {
  document = document;
  version = version;
  status = status;
  updated_at = at;
}

-- The refusals of an upsert, each of which leaves every document as it was.
pub record Refused (result : Result ℕ × DurableState) (s : DurableState) : Type 0 where
  pub raised : (result.0 ≡ raise stale_epoch) ⊎ (result.0 ≡ raise optimistic_concurrency)
  pub unchanged : result.1.documents ≡ s.documents

module _ (table key : String) where
  abbrev pub stored : DurableState → Option StoredDocument
  stored s = get (table, key) s.documents

  -- The three ways that an upsert can go.
  pub upsert_stale :
      (document : Value) (expected epoch : ℕ) (status : Option String) (at : Option ℕ)
      (s : DurableState)
      → epoch < scope_epoch table key s
      → upsert table key document expected epoch status at s ≡ (raise stale_epoch, s)
  unfolding upsert guard_epoch
  upsert_stale document expected epoch status at s h =
      rw (lt→ltb epoch (scope_epoch table key s) h) refl

  pub upsert_conflict :
      (document : Value) (expected epoch : ℕ) (status : Option String) (at : Option ℕ)
      (s : DurableState)
      → scope_epoch table key s ≤ epoch
      → version_of (stored s) ≢ expected
      → upsert table key document expected epoch status at s
        ≡ (raise optimistic_concurrency, under (document_scope table key) epoch s)
  unfolding upsert guard_epoch replace
  upsert_conflict document expected epoch status at s h ne =
      rw (le→ltb_false epoch (scope_epoch table key s) h)
        (if_false (nat_beq (version_of (stored s)) expected) _ _ (ground arith))

  pub upsert_accepted :
      (document : Value) (expected epoch : ℕ) (status : Option String) (at : Option ℕ)
      (s : DurableState)
      → scope_epoch table key s ≤ epoch
      → version_of (stored s) ≡ expected
      → upsert table key document expected epoch status at s ≡ (
        ok (expected + 1),
        record (under (document_scope table key) epoch s) {
          documents = put (table, key) (written document (expected + 1) status at) s.documents;
        },
      )
  unfolding upsert guard_epoch replace
  upsert_accepted document expected epoch status at s h e =
      rw (le→ltb_false epoch (scope_epoch table key s) h, sym e)
        (if_true (nat_beq (version_of (stored s)) (version_of (stored s))) _ _ (ground arith))

module _ (table key : String) where
  put-version :
      (place : String × String) (d : StoredDocument)
      (documents : Dict (String × String) StoredDocument)
      → version_of (get place documents) < d.version
      → (get (table, key) (put place d documents) ≡ get (table, key) documents)
        ⊎ (version_of (get (table, key) documents)
            < version_of (get (table, key) (put place d documents)))
  put-version place d documents h = elim (Bool-cases (place == (table, key))) [
    | inr ne ↦ inl (get-put_other place (table, key) d documents ne)
    | inl same ↦
        rw (sym (eq_of_beq place (table, key) same), get-put_self place d documents) (inr h)
  ]

  -- A document changes only under a higher version.
  pub perform-version :
      (c : Call) (s : DurableState)
      → (stored table key (perform c s) ≡ stored table key s)
        ⊎ (version_of (stored table key s) < version_of (stored table key (perform c s)))
  unfolding perform guard_epoch add_to_set mark_contribution clear_contribution
  perform-version (upserts t k document expected epoch status at) s =
      elim (dec_lt epoch (scope_epoch t k s)) [
        | yes p ↦ rw (upsert_stale t k document expected epoch status at s p, perform) (inl refl)
        | no p ↦ elim (Bool-cases (nat_beq (version_of (stored t k s)) expected)) [
          | inr ne ↦
              rw
                (
                  upsert_conflict t k document expected epoch status at s (omega arith)
                      (ground arith),
                  perform,
                )
                (inl refl)
          | inl e ↦
              rw
                (
                  upsert_accepted t k document expected epoch status at s (omega arith)
                      (ground arith),
                  perform,
                )
                (put-version (t, k) (written document (expected + 1) status at) s.documents
                  (ground arith))
        ]
      ]
  perform-version (adds t k field value epoch) s = inl (ground arith)
  perform-version (marks session_id operator_id epoch) s = inl (ground arith)
  perform-version (clears session_id operator_id) s = inl refl

  pub perform_all-version :
      (cs : List Call) (s : DurableState)
      → (stored table key (perform_all cs s) ≡ stored table key s)
        ⊎ (version_of (stored table key s) < version_of (stored table key (perform_all cs s)))
  unfolding perform_all
  perform_all-version [] s = inl refl
  perform_all-version (c ∷ cs) s = elim (perform_all-version cs (perform c s)) [
    | inl same ↦ rw (same) (perform-version c s)
    | inr more ↦ elim (perform-version c s) [
      | inl now ↦ inr (rw (now) at more)
      | inr now ↦ inr (omega arith)
    ]
  ]

  pub upsert_outdated :
      (document : Value) (expected epoch : ℕ) (status : Option String) (at : Option ℕ)
      (s : DurableState)
      → expected < version_of (stored table key s)
      → Refused (upsert table key document expected epoch status at s) s
  upsert_outdated document expected epoch status at s h =
      elim (dec_lt epoch (scope_epoch table key s)) [
        | yes p ↦
            rw (upsert_stale table key document expected epoch status at s p)
              (record { raised = inl refl; unchanged = refl })
        | no p ↦
            rw
              (upsert_conflict table key document expected epoch status at s (omega arith)
                (λ e. omega arith))
              (record { raised = inr refl; unchanged = refl })
      ]

  not_ok : (e : Error) (n : ℕ) → ¬ ◌≡◌ {A = Result ℕ} (raise e) (ok n)
  not_ok e n h = absurd (ground arith)

  pub upsert_ok :
      (document : Value) (expected epoch : ℕ) (status : Option String) (at : Option ℕ)
      (s : DurableState) (n : ℕ)
      → (upsert table key document expected epoch status at s).0 ≡ ok n
      → version_of (stored table key (upsert table key document expected epoch status at s).1)
        ≡ expected + 1
  upsert_ok document expected epoch status at s n h =
      elim (dec_lt epoch (scope_epoch table key s)) [
        | yes p ↦
            absurd
              (not_ok _ n (rw (upsert_stale table key document expected epoch status at s p) at h))
        | no p ↦ elim (Bool-cases (nat_beq (version_of (stored table key s)) expected)) [
          | inr ne ↦ absurd (
              not_ok _ n (
                rw
                  (upsert_conflict table key document expected epoch status at s (omega arith)
                    (ground arith))
                  at h))
          | inl e ↦
              rw
                (
                  upsert_accepted table key document expected epoch status at s (omega arith)
                      (ground arith),
                  get-put_self (table, key) (written document (expected + 1) status at) s.documents,
                )
                refl
        ]
      ]

  kept_version :
      (cs : List Call) (s : DurableState)
      → version_of (stored table key s) ≤ version_of (stored table key (perform_all cs s))
  kept_version cs s = elim (perform_all-version cs s) [
    | inl same ↦ rw (same) (omega arith)
    | inr more ↦ omega arith
  ]

  -- No lost update: once an upsert that expected a version succeeded, and whatever calls follow on
  -- any table, an upsert of the same document that expects that version or an earlier one raises a
  -- stale epoch or a version conflict, and leaves every document as it was.
  pub no_lost_update :
      (document late : Value) (expected older epoch epoch' : ℕ) (status status' : Option String)
      (at at' : Option ℕ) (cs : List Call) (s : DurableState) (n : ℕ)
      → (upsert table key document expected epoch status at s).0 ≡ ok n
      → older ≤ expected
      → let s' = perform_all cs (upsert table key document expected epoch status at s).1 in
        Refused (upsert table key late older epoch' status' at' s') s'
  no_lost_update document late expected older epoch epoch' status status' at at' cs s n h le =
      upsert_outdated late older epoch' status' at'
        (perform_all cs (upsert table key document expected epoch status at s).1)
        (omega (
          arith,
          upsert_ok document expected epoch status at s n h,
          kept_version cs (upsert table key document expected epoch status at s).1,
        ))
