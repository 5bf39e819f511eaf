-- ===== src/DataPoint/Hashing.antt =====
-- JSON-native values of orcastork/datapoints/base.py, and their hashable normal form.
use Prim.Native.Nat.{Ordering}
use Prim.Native.String.{compare}
use mathlib.Core.Path.{ap, ap₂}
use orcastork.Base.{
  and-true, string_eq, String, ◌≡◌, ◌↔◌, refl, Bool, true, false, ◌&&◌, arith, eq_iff, Eq, ◌==◌,
  if◌then◌else◌,
}

-- A text, any other scalar (a number, a Boolean, None) by a text that names its class under `==`,
-- a list or tuple, and a dict with text keys.
mutual
  pub data Value : Type 0 where
    str : String → Value
    other : String → Value
    items : Values → Value
    dict : Fields → Value

  pub data Values : Type 0 where
    nil : Values
    cons : Value → Values → Values

  pub data Fields : Type 0 where
    end : Fields
    field : String → Value → Fields → Fields

-- What `_make_hashable` returns: scalars, and tuples of such.
mutual
  pub data Hashable : Type 0 where
    text : String → Hashable
    scalar : String → Hashable
    tuple : Hashables → Hashable

  pub data Hashables : Type 0 where
    none_left : Hashables
    next : Hashable → Hashables → Hashables

-- The pair `(key, value)` of a dict item.
abbrev pub item : String → Hashable → Hashable
item k h = tuple (next (text k) (next h none_left))

abbrev pub text_leb : String → String → Bool
text_leb s t = elim (compare s t) [ Ordering.gt ↦ false | _ ↦ true ]

-- The items of a dict before they become a tuple.
pub data Items : Type 0 where
  empty : Items
  entry : String → Hashable → Items → Items

-- One step of `sorted` on items; keys of a dict differ, so the keys decide the order.
unfoldable pub insert_item : String → Hashable → Items → Items
insert_item k h empty = entry k h empty
insert_item k h (entry j g rest) =
    let later = insert_item k h rest in
    if text_leb k j then entry k h (entry j g rest) else entry j g later

unfoldable pub tuple_of : Items → Hashables
tuple_of empty = none_left
tuple_of (entry k h rest) = next (item k h) (tuple_of rest)

-- `_make_hashable` of a JSON-native value; its branch for a set, which is none, is left out.
unfoldable mutual
  unfolding insert_item tuple_of

  pub make_hashable : Value → Hashable
  make_hashable (str s) = text s
  make_hashable (other s) = scalar s
  make_hashable (items vs) = tuple (hashable_items vs)
  make_hashable (dict fs) = tuple (tuple_of (sorted_items fs))

  pub hashable_items : Values → Hashables
  hashable_items nil = none_left
  hashable_items (cons v vs) = next (make_hashable v) (hashable_items vs)

  pub sorted_items : Fields → Items
  sorted_items end = empty
  sorted_items (field k v fs) = insert_item k (make_hashable v) (sorted_items fs)

unfoldable mutual
  pub hashable_beq : Hashable → Hashable → Bool
  hashable_beq (text s) (text t) = s == t
  hashable_beq (scalar s) (scalar t) = s == t
  hashable_beq (tuple xs) (tuple ys) = hashables_beq xs ys
  hashable_beq _ _ = false

  pub hashables_beq : Hashables → Hashables → Bool
  hashables_beq none_left none_left = true
  hashables_beq (next x xs) (next y ys) = hashable_beq x y && hashables_beq xs ys
  hashables_beq _ _ = false

mutual
  unfolding hashable_beq

  eq_of_hashable_beq : (a b : Hashable) → hashable_beq a b ≡ true → a ≡ b
  eq_of_hashable_beq (text s) (text t) h = ground (arith, eq_iff s t)
  eq_of_hashable_beq (scalar s) (scalar t) h = ground (arith, eq_iff s t)
  eq_of_hashable_beq (tuple xs) (tuple ys) h = ap tuple (eq_of_hashables_beq xs ys h)
  eq_of_hashable_beq _ _ h = absurd (ground arith)

  eq_of_hashables_beq : (xs ys : Hashables) → hashables_beq xs ys ≡ true → xs ≡ ys
  eq_of_hashables_beq none_left none_left h = refl
  eq_of_hashables_beq (next x xs) (next y ys) h =
      let (p, q) = and-true (hashable_beq x y) (hashables_beq xs ys) h in
      ap₂ next (eq_of_hashable_beq x y p) (eq_of_hashables_beq xs ys q)
  eq_of_hashables_beq _ _ h = absurd (ground arith)

mutual
  unfolding hashable_beq

  hashable_beq_refl : (a : Hashable) → hashable_beq a a ≡ true
  hashable_beq_refl (text s) = (eq_iff s s).1 refl
  hashable_beq_refl (scalar s) = (eq_iff s s).1 refl
  hashable_beq_refl (tuple xs) = hashables_beq_refl xs

  hashables_beq_refl : (xs : Hashables) → hashables_beq xs xs ≡ true
  hashables_beq_refl none_left = refl
  hashables_beq_refl (next x xs) = ground (arith, hashable_beq_refl x, hashables_beq_refl xs)

pub hashable_beq_iff : (a b : Hashable) → (hashable_beq a b ≡ true) ↔ (a ≡ b)
hashable_beq_iff a b = (eq_of_hashable_beq a b, λ e. ground (arith, hashable_beq_refl a))

instance abbrev pub hashable_eq : Eq Hashable
hashable_eq = record { beq = hashable_beq; beq_iff = hashable_beq_iff }
