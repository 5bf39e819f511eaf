-- ===== src/Durable.antt =====
-- orcastork/adapters/memory/durable_store.py: versioned documents, sets and contribution marks.
pub mod Helpers
pub mod Versions
pub mod Finality
pub mod Sets
pub mod Contributions
use orcastork.Base.Dict.{Dict, get, put}
use orcastork.Base.{
  Eq, string_eq, Bool, Exec, List, Option, String, [], contains, continue, false, filter, gets,
  if◌then◌else◌, length, ltb, nat_beq, none, not, ok, optimistic_concurrency, raise, some,
  stale_epoch, true, ℕ, ◌&&◌, ◌+◌, ◌==◌, ◌>>=◌, ◌>>◌, ◌∷◌,
}
use Prim.Native.String.{◌++◌}
use orcastork.Base.{pair_eq, string_eq}
use orcastork.DataPoint.Hashing.{Value}

pub record StoredDocument : Type 0 where
  pub document : Value
  pub version : ℕ
  pub status : Option String
  pub updated_at : Option ℕ

pub record DurableState : Type 0 where
  pub documents : Dict (String × String) StoredDocument
  pub sets : Dict (String × (String × String)) (List String)
  pub contributions : List (String × String)
  pub max_epochs : Dict String ℕ

abbrev pub Op : Type 0 → Type 0
Op = Exec DurableState

abbrev pub or_zero : Option ℕ → ℕ
or_zero none = 0
or_zero (some n) = n

unfoldable pub guard_epoch : String → ℕ → Op Unit
guard_epoch scope epoch s =
    if ltb epoch (or_zero (get scope s.max_epochs))
    then (raise stale_epoch, s)
    else (ok tt, record s { max_epochs = put scope epoch s.max_epochs })

-- `f'{table}\x00{key}'`
abbrev pub document_scope : String → String → String
document_scope table key = table ++ "\0" ++ key

abbrev pub contribution_scope : String → String
contribution_scope session_id = "contribution:" ++ session_id

unfoldable pub read : String → String → Op (Option StoredDocument)
read table key = gets (λ s. get (table, key) s.documents)

abbrev pub version_of : Option StoredDocument → ℕ
version_of none = 0
version_of (some d) = d.version

unfoldable pub replace : String → String → Value → ℕ → Option String → Option ℕ → Op ℕ
replace table key document expected_version status updated_at s =
    let current_version = version_of (get (table, key) s.documents) in
    if nat_beq current_version expected_version
    then (
      ok (current_version + 1),
      record s {
        documents =
            put (table, key)
              (record {
                document = document;
                version = current_version + 1;
                status = status;
                updated_at = updated_at;
              })
              s.documents;
      },
    )
    else (raise optimistic_concurrency, s)

unfoldable pub upsert : String → String → Value → ℕ → ℕ → Option String → Option ℕ → Op ℕ
unfolding guard_epoch replace
upsert table key document expected_version epoch status updated_at = do
  guard_epoch (document_scope table key) epoch
  replace table key document expected_version status updated_at

abbrev pub or_empty : Option (List String) → List String
or_empty none = []
or_empty (some members) = members

-- `members.add(value)`
abbrev pub with_member : String → List String → List String
with_member value members = if contains value members then members else value ∷ members

unfoldable pub add_to_set : String → String → String → String → ℕ → Op ℕ
unfolding guard_epoch
add_to_set table key field_name value epoch = do
  guard_epoch (document_scope table key) epoch
  λ s.
      let members = with_member value (or_empty (get (table, (key, field_name)) s.sets)) in
      (ok (length members), record s { sets = put (table, (key, field_name)) members s.sets })

unfoldable pub mark_contribution : String → String → ℕ → Op Bool
unfolding guard_epoch
mark_contribution session_id operator_id epoch = do
  guard_epoch (contribution_scope session_id) epoch
  λ s.
      if contains (session_id, operator_id) s.contributions
      then (ok false, s)
      else (ok true, record s { contributions = (session_id, operator_id) ∷ s.contributions })

unfoldable pub is_contribution_marked : String → String → Op Bool
is_contribution_marked session_id operator_id =
    gets (λ s. contains (session_id, operator_id) s.contributions)

unfoldable pub clear_contribution : String → String → Op Unit
clear_contribution session_id operator_id s = (
  ok tt,
  record s { contributions = filter (λ m. not (m == (session_id, operator_id))) s.contributions },
)
