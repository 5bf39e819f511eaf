-- ===== src/Base/Sessions.antt =====
-- `self._sessions.setdefault(session_id, State())`: each in-memory adapter keeps one state object
-- for each session, made on first use, and its operations mutate that object in place.
use Prim.Native.String.{String}
use mathlib.Core.Path.{◌≡◌}
use mathlib.Core.Logic.{◌≢◌}
use mathlib.Core.Option.{Option, none, some}
use native.Mathlib.Omega.{arith}
use text.Mathlib.TextEquality.{eq_iff}
use orcastork.Base.Equality.{string_eq}
use orcastork.Base.Coroutine.{Exec}
use orcastork.Base.Dict.{Dict, get, put, get-put}

module _ {S : Type 0} (fresh : S) where
  abbrev pub or_fresh : Option S → S
  or_fresh none = fresh
  or_fresh (some s) = s

  -- `_state`
  abbrev pub state_of : String → Dict String S → S
  state_of session_id sessions = or_fresh (get session_id sessions)

  unfoldable pub at_session : {A : Type 0} → String → Exec S A → Exec (Dict String S) A
  at_session session_id op sessions =
      let (r, s') = op (state_of session_id sessions) in (r, put session_id s' sessions)

  -- An operation leaves its own outcome in its own session.
  pub state_of-at_session_self :
      {A : Type 0} (session_id : String) (op : Exec S A) (sessions : Dict String S)
      → state_of session_id (at_session session_id op sessions).1
        ≡ (op (state_of session_id sessions)).1
  unfolding at_session
  state_of-at_session_self session_id op sessions = ground (
    arith,
    eq_iff session_id session_id,
    get-put session_id session_id (op (state_of session_id sessions)).1 sessions,
  )

  -- An operation leaves every other session alone.
  pub state_of-at_session_ne :
      {A : Type 0} (session_id other : String) (op : Exec S A) (sessions : Dict String S)
      → session_id ≢ other
      → state_of other (at_session session_id op sessions).1 ≡ state_of other sessions
  unfolding at_session
  state_of-at_session_ne session_id other op sessions ne = ground (
    arith,
    eq_iff session_id other,
    get-put session_id other (op (state_of session_id sessions)).1 sessions,
  )
