-- ===== src/DataPoint.antt =====
-- orcastork/datapoints/base.py: the data point, its identity and its emission.
pub mod Hashing
pub mod Registry
pub mod Collection
use Hashing.{Value, Hashable, make_hashable, hashable_beq, hashable_eq}
use orcastork.Base.{
  Bool, pair_beq, pair_beq_iff, true, ◌↔◌, ℕ, ◌≤◌, String, ◌≡◌, refl, max, arith, Eq, string_eq,
  pair_eq,
}

-- A Python class object, by its identity.
abbrev pub Class : Type 0
Class = ℕ

-- `cls` is `type(data_point)`; times are instants on one clock.
pub record DataPoint : Type 0 where
  pub cls : Class
  pub type : String
  pub value : Value
  pub retrieved_by : String
  pub first_retrieved : ℕ
  pub last_retrieved : ℕ

abbrev pub Key : Type 0
Key = String × Hashable

unfoldable pub identity_key : DataPoint → Key
unfolding make_hashable
identity_key d = (d.type, make_hashable d.value)

-- `reobserved`: a copy with `last_retrieved` advanced
unfoldable pub reobserved : ℕ → DataPoint → DataPoint
reobserved at d = record d { last_retrieved = max d.last_retrieved at }

-- `DataPointEmission`; `type` is the discriminator that the leaf pins
pub record Emission : Type 0 where
  pub leaf_type : Class
  pub type : String
  pub value : Value

unfoldable pub finalize : Emission → String → ℕ → DataPoint
finalize emission retrieved_by at = record {
  cls = emission.leaf_type;
  type = emission.type;
  value = emission.value;
  retrieved_by = retrieved_by;
  first_retrieved = at;
  last_retrieved = at;
}

unfoldable pub key_beq : Key → Key → Bool
unfolding hashable_beq
key_beq = pair_beq

pub key_beq_iff : (j k : Key) → (key_beq j k ≡ true) ↔ (j ≡ k)
unfolding key_beq
key_beq_iff = pair_beq_iff

instance abbrev pub key_eq : Eq Key
key_eq = record { beq = key_beq; beq_iff = key_beq_iff }

pub identity_key-reobserved :
    (at : ℕ) (d : DataPoint) → identity_key (reobserved at d) ≡ identity_key d
unfolding identity_key reobserved
identity_key-reobserved at d = refl

-- Observing again at a time already covered changes nothing.
pub reobserved_covered : (at : ℕ) (d : DataPoint) → at ≤ d.last_retrieved → reobserved at d ≡ d
unfolding reobserved
reobserved_covered at d h =
    let e : max d.last_retrieved at ≡ d.last_retrieved = omega arith in
    λ i. record d { last_retrieved = e i }
