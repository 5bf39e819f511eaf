-- ===== src/Rerun/Windows.antt =====
-- Windows in time: a debounced rerun, and a cooldown.
use orcastork.Base.Dict.{Dict, delete, get, get-delete, get-put, get-put_other, get-put_self}
use orcastork.Base.{
  Bool, Bool-cases, List, Option, String, [], and-true, arith, beq_refl, eq_of_beq, false, inl, inr,
  leb, ltb, lt→ltb, none, ok, refl, some, true, ℕ, ◌&&◌, ◌+◌, ◌<◌, ◌==◌, ◌∙◌, ◌∷◌, ◌≡◌, string_eq,
}
use orcastork.Rerun.{
  DebounceController, effective, schedule, is_scheduled, due_at, is_due, clear, try_acquire,
}

gone : (k : String) (d : Dict String ℕ) → get k (delete k d) ≡ none
gone k d = ground (arith, get-delete k k d, beq_refl k)

-- An armed rerun is due from the end of its window on and not before, also when it was armed before; a
-- cleared one is neither armed nor due; and neither call touches the window of another operator.
pub schedule-due :
    (operator_id other : String) (window : Option ℕ) (now later : ℕ) (d : DebounceController)
    → (operator_id == other) ≡ false
    → (is_due operator_id later (schedule operator_id window now d)
        ≡ leb (now + effective d.default_window window) later)
      × (is_due operator_id later (clear operator_id d) ≡ false)
      × (is_scheduled operator_id (clear operator_id d) ≡ false)
      × (due_at other (schedule operator_id window now d) ≡ due_at other d)
      × (due_at other (clear operator_id d) ≡ due_at other d)
unfolding schedule is_due clear is_scheduled due_at
schedule-due operator_id other window now later d ne = (
  rw (get-put_self operator_id (now + effective d.default_window window) d.due) refl,
  rw (gone operator_id d.due) refl,
  rw (gone operator_id d.due) refl,
  get-put_other operator_id other (now + effective d.default_window window) d.due ne,
  rw (get-delete operator_id other d.due, ne) refl,
)

-- The calls on a gate, each with the key, the cooldown and the time.
abbrev pub Claims : Type 0
Claims = List (String × (ℕ × ℕ))

abbrev pub claim_all : Claims → Dict String ℕ → Dict String ℕ
claim_all [] s = s
claim_all ((key, (cooldown, now)) ∷ more) s = claim_all more (try_acquire key cooldown now s).1

-- All made before a time.
abbrev pub before : ℕ → Claims → Bool
before until [] = true
before until ((key, (cooldown, now)) ∷ more) = ltb now until && before until more

early : (m n : ℕ) → ltb m n ≡ true → m < n
early m n h = ground arith

refused :
    (key : String) (cooldown now until : ℕ) (s : Dict String ℕ)
    → get key s ≡ some until
    → now < until
    → try_acquire key cooldown now s ≡ (ok false, s)
unfolding try_acquire
refused key cooldown now until s h l = rw (h, lt→ltb now until l) refl

elsewhere :
    (k key : String) (cooldown now : ℕ) (s : Dict String ℕ)
    → (k == key) ≡ false
    → get key (try_acquire k cooldown now s).1 ≡ get key s
unfolding try_acquire
elsewhere k key cooldown now s ne = ground (arith, get-put k key (now + cooldown) s)

granted_until :
    (key : String) (cooldown now : ℕ) (s : Dict String ℕ)
    → (try_acquire key cooldown now s).0 ≡ ok true
    → get key (try_acquire key cooldown now s).1 ≡ some (now + cooldown)
unfolding try_acquire
granted_until key cooldown now s h =
    ground (arith, get-put key key (now + cooldown) s, beq_refl key)

cooling_stays :
    (key : String) (until : ℕ) (claims : Claims) (s : Dict String ℕ)
    → before until claims ≡ true
    → get key s ≡ some until
    → get key (claim_all claims s) ≡ some until
cooling_stays key until [] s b h = h
cooling_stays key until ((k, (cooldown, now)) ∷ more) s b h =
    let (x, y) = and-true (ltb now until) _ b in
    cooling_stays key until more (try_acquire k cooldown now s).1 y (elim (Bool-cases (k == key)) [
      | inl same ↦
          rw (eq_of_beq k key same, refused key cooldown now until s h (early now until x)) h
      | inr ne ↦ elsewhere k key cooldown now s ne ∙ h
    ])

-- A gate admits a key once in a cooldown: after it was granted, and whatever keys are tried before the
-- cooldown ends, the same key is refused until then.
pub try_acquire-once :
    (key : String) (cooldown next now later : ℕ) (claims : Claims) (s : Dict String ℕ)
    → (try_acquire key cooldown now s).0 ≡ ok true
    → before (now + cooldown) claims ≡ true
    → later < now + cooldown
    → (try_acquire key next later (claim_all claims (try_acquire key cooldown now s).1)).0
      ≡ ok false
try_acquire-once key cooldown next now later claims s granted b l =
    rw
      (refused key next later (now + cooldown) (claim_all claims (try_acquire key cooldown now s).1)
        (cooling_stays key (now + cooldown) claims (try_acquire key cooldown now s).1 b
          (granted_until key cooldown now s granted))
        l)
      refl
