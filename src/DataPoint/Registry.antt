-- ===== src/DataPoint/Registry.antt =====
-- The registry of orcastork/datapoints/base.py: what happens when a data point class is defined, and
-- who holds a discriminator. The methods that read it are in Classes.
use orcastork.Base.Dict.{Dict, get, get-put, put}
use orcastork.Base.{
  Bool-cases, if_false, if_true, inl, inr, Bool, Exec, List, Option, String, [], arith,
  duplicate_registration, false, if◌then◌else◌, invalid_data_point, nat_beq, none, not, ok, raise,
  some, ℕ, ◌+◌, ◌∷◌, ◌≡◌, string_eq,
}
use orcastork.DataPoint.{Class}

-- What `__pydantic_init_subclass__` looks at: whether the class is one of pydantic's own
-- parametrizations, whether it sets `__abstract__` itself, the default of its `type`, and whether its
-- `config` is a `DataPointTypeConfig`.
pub record ClassBody : Type 0 where
  pub cls : Class
  pub is_parametrization : Bool
  pub is_abstract : Bool
  pub type_default : Option String
  pub has_config : Bool

pub record Registry : Type 0 where
  pub registry : Dict String Class
  pub abstract_types : List Class
  pub version : ℕ

abbrev pub taken : Class → Option Class → Bool
taken cls none = false
taken cls (some existing) = not (nat_beq existing cls)

unfoldable pub register_leaf : Class → String → Exec Registry Unit
register_leaf cls discriminator r =
    if taken cls (get discriminator r.registry)
    then (raise duplicate_registration, r)
    else (ok tt, record r { registry = put discriminator cls r.registry; version = r.version + 1 })

abbrev register_concrete : ClassBody → Option String → Exec Registry Unit
register_concrete body none r = (raise invalid_data_point, r)
register_concrete body (some discriminator) r =
    if body.has_config
    then register_leaf body.cls discriminator r
    else (raise invalid_data_point, r)

-- `__pydantic_init_subclass__`
unfoldable pub define_class : ClassBody → Exec Registry Unit
unfolding register_leaf
define_class body r =
    if body.is_parametrization
    then (ok tt, r)
    else if body.is_abstract
    then (ok tt, record r { abstract_types = body.cls ∷ r.abstract_types; version = r.version + 1 })
    else register_concrete body body.type_default r

unfoldable pub define_all : List ClassBody → Registry → Registry
unfolding define_class
define_all [] r = r
define_all (body ∷ bodies) r = define_all bodies (define_class body r).1

register_leaf-keeps :
    (cls owner : Class) (discriminator held : String) (r : Registry)
    → get held r.registry ≡ some owner
    → get held (register_leaf cls discriminator r).1.registry ≡ some owner
unfolding register_leaf
register_leaf-keeps cls owner discriminator held r h =
    ground (arith, get-put discriminator held cls r.registry, string_eq.beq_iff discriminator held)

register_concrete-keeps :
    (body : ClassBody) (default : Option String) (owner : Class) (held : String) (r : Registry)
    → get held r.registry ≡ some owner
    → get held (register_concrete body default r).1.registry ≡ some owner
register_concrete-keeps body none owner held r h = h
register_concrete-keeps body (some discriminator) owner held r h =
    elim (Bool-cases body.has_config) [
      | inl configured ↦
          rw
            (if_true body.has_config (register_leaf body.cls discriminator r)
              (raise invalid_data_point, r) configured)
            (register_leaf-keeps body.cls owner discriminator held r h)
      | inr bare ↦
          rw
            (if_false body.has_config (register_leaf body.cls discriminator r)
              (raise invalid_data_point, r) bare)
            h
    ]

define_class-keeps :
    (body : ClassBody) (owner : Class) (held : String) (r : Registry)
    → get held r.registry ≡ some owner
    → get held (define_class body r).1.registry ≡ some owner
unfolding define_class
define_class-keeps body owner held r h = elim (Bool-cases body.is_parametrization) [
  | inl yes_it_is ↦ rw (yes_it_is) h
  | inr real ↦ elim (Bool-cases body.is_abstract) [
    | inl base ↦ rw (real, base) h
    | inr leaf ↦ rw (real, leaf) (register_concrete-keeps body body.type_default owner held r h)
  ]
]

-- A discriminator stays with the class that it was registered to, whatever classes are defined later.
pub define_all-keeps :
    (bodies : List ClassBody) (owner : Class) (held : String) (r : Registry)
    → get held r.registry ≡ some owner
    → get held (define_all bodies r).registry ≡ some owner
unfolding define_all
define_all-keeps [] owner held r h = h
define_all-keeps (body ∷ bodies) owner held r h =
    define_all-keeps bodies owner held (define_class body r).1
      (define_class-keeps body owner held r h)
