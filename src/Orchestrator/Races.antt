-- ===== src/Orchestrator/Races.antt =====
-- How a wait for the inbox ends: at the first of the deadline, the end of the idle window and the arrival.
use orcastork.Base.{
  inl, inr, Bool-cases, Bool, Option, false, leb, max, none, true, ◌⊎◌, ◌||◌, ◌&&◌, not, arith, ltb,
  refl, some, ℕ, ◌+◌, ◌-◌, ◌<◌, ◌≤◌, ◌≡◌,
}
use Prim.Native.Nat.{min}
use orcastork.Orchestrator.Waiting.{at_most_until, has_come, race}

-- How a wait ends: at the first of the deadline, the end of the idle window and the arrival.
abbrev pub min_with : Option ℕ → ℕ → ℕ
min_with none n = n
min_with (some m) n = min m n

module _ (deadline : ℕ) (park arrival : Option ℕ) where
  abbrev pub finish : ℕ → ℕ
  finish now = max now (min_with arrival (min_with park deadline))

  -- The idle window ends before the deadline, and before anything arrives.
  abbrev pub parks_at : Option ℕ → Bool
  parks_at none = false
  parks_at (some instant) = ltb instant deadline && not (has_come arrival instant)

  abbrev pub is_open : ℕ → Bool
  is_open now = ltb now deadline && not (has_come park now)

  -- The waiter is not done, and nothing that ends the wait lies behind.
  abbrev pub is_waiting : ℕ → Bool
  is_waiting now = is_open now || (leb now (min_with park deadline) && not (has_come arrival now))

pub open_waits :
    (deadline : ℕ) (park arrival : Option ℕ) (now : ℕ)
    → is_open deadline park arrival now ≡ true
    → is_waiting deadline park arrival now ≡ true
open_waits deadline park arrival now h = ground arith

pub opened :
    (deadline : ℕ) (park arrival : Option ℕ) (now : ℕ)
    → leb deadline now ≡ false
    → has_come park now ≡ false
    → is_open deadline park arrival now ≡ true
opened deadline park arrival now h k = ground arith

pub closed :
    (deadline : ℕ) (park arrival : Option ℕ) (now : ℕ)
    → is_waiting deadline park arrival now ≡ true
    → leb deadline now ≡ true
    → (now ≡ finish deadline park arrival now) × (false ≡ parks_at deadline park arrival park)
closed deadline none none now h k = (ground arith, refl)
closed deadline none (some a) now h k = (ground arith, refl)
closed deadline (some q) none now h k = (ground arith, ground arith)
closed deadline (some q) (some a) now h k = (ground arith, ground arith)

pub idled :
    (deadline : ℕ) (park arrival : Option ℕ) (now : ℕ)
    → is_waiting deadline park arrival now ≡ true
    → leb deadline now ≡ false
    → has_come park now ≡ true
    → (now ≡ finish deadline park arrival now) × (true ≡ parks_at deadline park arrival park)
idled deadline none arrival now h k c = absurd (ground arith)
idled deadline (some q) none now h k c = (ground arith, ground arith)
idled deadline (some q) (some a) now h k c = (ground arith, ground arith)

-- The timer goes off by the time that the wait must end, and not at once unless it is due.
pub bound_fair :
    (deadline : ℕ) (park arrival : Option ℕ) (now more : ℕ)
    → is_open deadline park arrival now ≡ true
    → let b = at_most_until park now (min more (deadline - now)) in
      (now + b ≤ min_with park deadline) × (b ≤ more) × ((more ≡ 0) ⊎ (0 < b))
bound_fair deadline none arrival now more h = (ground arith, ground arith, ground arith)
bound_fair deadline (some q) arrival now more h = (ground arith, ground arith, ground arith)

pub starved :
    (deadline : ℕ) (park arrival : Option ℕ) (now : ℕ)
    → is_waiting deadline park arrival now ≡ true
    → ¬ (deadline < now + 0)
starved deadline none arrival now h k = ground arith
starved deadline (some q) arrival now h k = ground arith

parks_late :
    (deadline : ℕ) (park : Option ℕ) (a : ℕ)
    → a ≤ min_with park deadline
    → false ≡ parks_at deadline park (some a) park
parks_late deadline none a h = refl
parks_late deadline (some q) a h = ground arith

module _ (deadline : ℕ) (park : Option ℕ) (now : ℕ) where
  abbrev pub HasRaced : Option ℕ → ℕ → Bool × ℕ → Type 0
  HasRaced arrival more r =
      (now ≤ r.1)
      × (r.1 ≤ now + more)
      × (((r.0 ≡ true)
            × (r.1 ≡ finish deadline park arrival now)
            × (false ≡ parks_at deadline park arrival park))
          ⊎ ((r.0 ≡ false)
              × (is_waiting deadline park arrival r.1 ≡ true)
              × (finish deadline park arrival r.1 ≡ finish deadline park arrival now)
              × ((more ≡ 0) ⊎ (now < r.1))))

  pub race_fair :
      (arrival : Option ℕ) (more b : ℕ)
      → now + b ≤ min_with park deadline
      → b ≤ more
      → (more ≡ 0) ⊎ (0 < b)
      → HasRaced arrival more (race arrival now b)
  race_fair none more b h k c =
      (omega arith, omega arith, inr (refl, ground arith, omega arith, ground arith))
  race_fair (some a) more b h k c = elim (Bool-cases (leb a (now + b))) [
    | inl first ↦ rw (first) (
      ground arith,
      ground arith,
      inl (refl, ground arith, parks_late deadline park a (ground arith)),
    )
    | inr later ↦
        rw (later) (omega arith, omega arith, inr (refl, ground arith, ground arith, ground arith))
  ]
