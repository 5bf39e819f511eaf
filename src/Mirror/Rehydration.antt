-- ===== src/Mirror/Rehydration.antt =====
-- A rehydration brings the mirror in step with the store.
use orcastork.Base.Sessions.{at_session}
use orcastork.Base.{string_eq, [], arith, none, ok, refl, sym, true, ℕ, ◌++◌, ◌∙◌, ◌∷◌, ◌≡◌}
use orcastork.Base.Dict.{
  put, Dict, get, get-append, has, has-cons_self, has-cons_weaken, put_absent,
}
use mathlib.Core.List.{append-nil, append_assoc}
use orcastork.DataPoint.{Key, key_eq, key_beq_iff}
use orcastork.Store.{Entry, data_points}
use orcastork.Store.Invariant.{IsValid, IsStored}
use orcastork.Mirror.{MirrorEntry, World, call, load, rehydrate}
use orcastork.Mirror.Aligned.{Aligned}
use orcastork.Mirror.Agreement.{stored, InStep, InStep-of_stored, stored-put}

-- The copy of a point that carries no stamps.
abbrev unstamped : Entry → MirrorEntry
unstamped e = record { data_point = e.data_point; added_rev = 0; updated_rev = 0 }

abbrev copies : Dict Key Entry → Dict Key MirrorEntry
copies [] = []
copies ((k, e) ∷ d) = (k, unstamped e) ∷ copies d

absent_later :
    (j k : Key) (m : MirrorEntry) (acc : Dict Key MirrorEntry) (d : Dict Key Entry)
    → get k d ≡ none
    → has j d ≡ true
    → get j acc ≡ none
    → get j (acc ++ (k, m) ∷ []) ≡ none
absent_later j k m acc d new here h =
    get-append j acc ((k, m) ∷ []) h ∙ unfold get in ground (arith, key_beq_iff k j)

-- A snapshot of well-formed entries loads as their copies, in order.
load-copies :
    (rev : ℕ) (d : Dict Key Entry) (acc : Dict Key MirrorEntry)
    → IsStored rev d
    → ((j : Key) → has j d ≡ true → get j acc ≡ none)
    → load (data_points d) acc ≡ acc ++ copies d
unfolding load
load-copies rev [] acc h absent = sym (append-nil acc)
load-copies rev ((k, e) ∷ d) acc h absent =
    rw (h.0.keyed, load, put_absent k (unstamped e) acc (absent k (has-cons_self k e d)))
      (load-copies rev d (acc ++ (k, unstamped e) ∷ []) h.2 (λ j here.
          absent_later j k (unstamped e) acc d h.1 here (absent j (has-cons_weaken k j e d here)))
        ∙ append_assoc acc ((k, unstamped e) ∷ []) (copies d))

copies-Aligned : (rev : ℕ) (d : Dict Key Entry) → IsStored rev d → Aligned rev (copies d) d
copies-Aligned rev [] h = tt
copies-Aligned rev ((k, e) ∷ d) h = (
  refl,
  record {
    points = refl;
    added_stamps = λ since late. ground (arith, h.0.ordered, h.0.bounded);
    updated_stamps = λ since late. ground (arith, h.0.bounded);
  },
  copies-Aligned rev d h.2,
)

load-Aligned :
    (rev : ℕ) (d : Dict Key Entry) → IsStored rev d → Aligned rev (load (data_points d) []) d
load-Aligned rev d h =
    rw (load-copies rev d [] h (λ j here. unfold get in refl)) (copies-Aligned rev d h)

-- From any world whose session is well formed, a rehydration returns and leaves the mirror in step.
pub rehydrate-InStep :
    (w : World) → IsValid (stored w) → ((rehydrate w).0 ≡ ok tt) × InStep (rehydrate w).1
unfolding rehydrate call at_session
rehydrate-InStep w h =
    let s = stored w in
    rw (stored-put w s) (
      refl,
      InStep-of_stored
          (record w {
            sessions = put w.mirror.session_id s (put w.mirror.session_id s w.sessions);
            mirror = record w.mirror {
              entries = load (data_points s.entries) [];
              baselines = [];
              revision = s.revision;
              rehydrated_at = s.revision;
              hydrated = true;
            };
          })
          s (rw (stored-put (record w { sessions = put w.mirror.session_id s w.sessions }) s)) refl
          h (omega arith) refl (load-Aligned s.revision s.entries h),
    )
