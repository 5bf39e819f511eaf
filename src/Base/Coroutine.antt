-- ===== src/Base/Coroutine.antt =====
-- Coroutines that mutate their object and may raise. An await returns, or raises with what was
-- written before still written, so the state comes back beside the error too.
use mathlib.Core.Path.{◌≡◌, refl}
use native.Mathlib.Omega.{arith}

-- The exception types of orcastork/exceptions.py, and Python's own.
pub data Error : Type 0 where
  duplicate_registration invalid_data_point unknown_data_point_type invalid_operator : Error
  stale_epoch lock_held optimistic_concurrency completion_tail_timeout unbounded_cycle : Error
  capability_unavailable invalid_capability state_mirror aggregator_dead_lettered : Error
  scheduling_gate_blocked invalid_completion_condition unprotected_pii pii_key_unavailable : Error
  replay_error key_error value_error other_error : Error

pub data Result {ℓ} (A : Type ℓ) : Type ℓ where
  ok : A → Result A
  raise : Error → Result A

abbrev pub Exec : Type 0 → Type 0 → Type 0
Exec S A = S → Result A × S

module _ {S A : Type 0} where
  abbrev pub pure : A → Exec S A
  pure a s = (ok a, s)

  abbrev pub throw : Error → Exec S A
  throw e s = (raise e, s)

  -- a read of the state
  abbrev pub gets : (S → A) → Exec S A
  gets f s = (ok (f s), s)

abbrev pub modify : {S : Type 0} → (S → S) → Exec S (Unit {0})
modify f s = (ok tt, f s)

module _ {S A B : Type 0} where
  abbrev pub continue : Result A → (A → Exec S B) → Exec S B
  continue (ok a) f s = f a s
  continue (raise e) f s = (raise e, s)

  infixl 5 ◌>>=◌ ◌>>◌
  abbrev pub ◌>>=◌ : Exec S A → (A → Exec S B) → Exec S B
  ◌>>=◌ m f s = let (r, s') = m s in continue r f s'

  abbrev pub ◌>>◌ : Exec S A → Exec S B → Exec S B
  m >> n = m >>= λ _. n

module _ {S A B : Type 0} where
  -- A bind that returns: its first part returned, and so did the second from there.
  returned :
      (p : Result A × S) (f : A → Exec S B) {b : B} {s' : S}
      → continue p.0 f p.1 ≡ (ok b, s')
      → (a : A) × (t : S) × (p ≡ (ok a, t)) × (f a t ≡ (ok b, s'))
  returned (ok a, t) f h = (a, t, refl, h)
  returned (raise e, t) f h = absurd (ground arith)

  pub >>=-eq-ok :
      (m : Exec S A) (f : A → Exec S B) (s : S) {b : B} {s' : S}
      → (m >>= f) s ≡ (ok b, s')
      → (a : A) × (t : S) × (m s ≡ (ok a, t)) × (f a t ≡ (ok b, s'))
  >>=-eq-ok m f s h = returned (m s) f h

-- Two outcomes are the same return.
pub ok-inj :
    {S A : Type 0} {a b : A} {s s' : S}
    → ◌≡◌ {A = Result A × S} (ok a, s) (ok b, s')
    → (a ≡ b) × (s ≡ s')
ok-inj h = (cc, cc)
