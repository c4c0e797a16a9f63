-- ===== src/Genpolicy/Value.antt =====
-- The JSON values of serde_json, and the operations on them that the service uses. An object is its
-- fields in the order of their keys, as serde_json keeps them.
use mathlib.Core.Bool.{false≢true}
use policy_templates.Prelude.{
  ℕ, ◌≡◌, ◌≢◌, refl, sym, ap, ◌∙◌, Bytes, ◌==◌, ==_iff, ==_refl, bytes_le, Bool, Bool-cases, Option,
  none, some, List, [], ◌∷◌, if◌then◌else◌, inl, inr, arith,
}

-- Number::PosInt, Number::NegInt (below zero, by its magnitude) and Number::Float (by its bits)
pub data Number : Type 0 where
  pos_int neg_int float : ℕ → Number

mutual
  pub data Value : Type 0 where
    null : Value
    boolean : Bool → Value
    number : Number → Value
    string : Bytes → Value
    array : Items → Value
    object : Fields → Value

  pub data Items : Type 0 where
    nil : Items
    cons : Value → Items → Items

  pub data Fields : Type 0 where
    end : Fields
    field : Bytes → Value → Fields → Fields

abbrev pub items : List Value → Items
items [] = nil
items (v ∷ vs) = cons v (items vs)

abbrev pub elements : Items → List Value
elements nil = []
elements (cons v vs) = v ∷ elements vs

pub elements-items : (vs : List Value) → elements (items vs) ≡ vs
elements-items [] = refl
elements-items (v ∷ vs) = ap (λ ws. v ∷ ws) (elements-items vs)

-- Map::insert
unfoldable pub put : Bytes → Value → Fields → Fields
put key value end = field key value end
put key value (field k v fields) =
    if key == k
    then field key value fields
    else if bytes_le key k
    then field key value (field k v fields)
    else field k v (put key value fields)

-- Map::get
unfoldable pub get_field : Bytes → Fields → Option Value
get_field key end = none
get_field key (field k v fields) = if k == key then some v else get_field key fields

-- Entries inserted one after the other, as `json!` and serialize_entry do.
unfoldable pub put_all : Fields → List (Bytes × Value) → Fields
put_all fields [] = fields
put_all fields ((key, value) ∷ entries) = put_all (put key value fields) entries

-- `json!({...})`
unfoldable pub json_object : List (Bytes × Value) → Value
json_object entries = object (put_all end entries)

-- `json!([...])`, and the array of a vector
abbrev pub json_array : List Value → Value
json_array vs = array (items vs)

-- Value::get
unfoldable pub get : Bytes → Value → Option Value
get key (object fields) = get_field key fields
get key _ = none

abbrev pub as_array : Option Value → Option (List Value)
as_array (some (array vs)) = some (elements vs)
as_array _ = none

abbrev pub as_string : Option Value → Option Bytes
as_string (some (string s)) = some s
as_string _ = none

-- `value[key] = new` for a value that is an object
unfoldable pub set_key : Bytes → Value → Value → Value
set_key key new (object fields) = object (put key new fields)
set_key key new v = v

abbrev pub get_in : Bytes → Option Value → Option Value
get_in key none = none
get_in key (some v) = get key v

pub get_field-put :
    (k : Bytes) (v : Value) (fields : Fields) → get_field k (put k v fields) ≡ some v
unfolding get_field put
get_field-put k v end = rw (==_refl k) refl
get_field-put k v (field j w fields) = elim (Bool-cases (k == j)) [
  | inl e ↦ rw (e, ==_refl k) refl
  | inr e ↦ elim (Bool-cases (bytes_le k j)) [
    | inl f ↦ rw (e, f, ==_refl k) refl
    | inr f ↦
        rw (e, f)
          (elim (Bool-cases (j == k)) [
            | inl g ↦ absurd (false≢true (sym e ∙ (==_iff k j).1 (sym ((==_iff j k).0 g))))
            | inr g ↦ rw g (get_field-put k v fields)
          ])
  ]
]

pub get_field-put_other :
    (k j : Bytes) (v : Value) (fields : Fields)
    → k ≢ j
    → get_field j (put k v fields) ≡ get_field j fields
unfolding get_field put
get_field-put_other k j v end differ = elim (Bool-cases (k == j)) [
  | inl e ↦ absurd (differ ((==_iff k j).0 e))
  | inr e ↦ rw e refl
]
get_field-put_other k j v (field i w fields) differ =
    let ih = get_field-put_other k j v fields differ in
    elim (Bool-cases (k == i)) [
      | inl e ↦ ground (arith, ==_iff k j, ==_iff k i, ==_iff i j, e, ih)
      | inr e ↦ ground (arith, ==_iff k j, ==_iff k i, ==_iff i j, e, ih)
    ]

pub get-set_key :
    (k : Bytes) (new v w : Value) → get k v ≡ some w → get k (set_key k new v) ≡ some new
unfolding get set_key
get-set_key k new (object fields) w h = get_field-put k new fields
get-set_key k new null w h = cc
get-set_key k new (boolean b) w h = cc
get-set_key k new (number n) w h = cc
get-set_key k new (string s) w h = cc
get-set_key k new (array vs) w h = cc

pub get-set_key_other : (k j : Bytes) (new v : Value) → k ≢ j → get j (set_key k new v) ≡ get j v
unfolding get set_key
get-set_key_other k j new (object fields) differ = get_field-put_other k j new fields differ
get-set_key_other k j new null differ = refl
get-set_key_other k j new (boolean b) differ = refl
get-set_key_other k j new (number n) differ = refl
get-set_key_other k j new (string s) differ = refl
get-set_key_other k j new (array vs) differ = refl

put-put : (k : Bytes) (v w : Value) (fields : Fields) → put k v (put k w fields) ≡ put k v fields
unfolding put
put-put k v w end = rw (==_refl k) refl
put-put k v w (field j u fields) = elim (Bool-cases (k == j)) [
  | inl e ↦ rw (e, ==_refl k) refl
  | inr e ↦ elim (Bool-cases (bytes_le k j)) [
    | inl f ↦ rw (e, f, ==_refl k) refl
    | inr f ↦ rw (e, f, e, f, put-put k v w fields) refl
  ]
]

pub set_key-set_key :
    (k : Bytes) (new old v : Value) → set_key k new (set_key k old v) ≡ set_key k new v
unfolding set_key
set_key-set_key k new old (object fields) = ap object (put-put k new old fields)
set_key-set_key k new old null = refl
set_key-set_key k new old (boolean b) = refl
set_key-set_key k new old (number n) = refl
set_key-set_key k new old (string s) = refl
set_key-set_key k new old (array vs) = refl

-- An object without a key.
unfoldable pub without_field : Bytes → Fields → Fields
without_field key end = end
without_field key (field k v fields) =
    if k == key then without_field key fields else field k v (without_field key fields)

unfoldable pub without_key : Bytes → Value → Value
without_key key (object fields) = object (without_field key fields)
without_key key v = v

without_field-put :
    (k : Bytes) (v : Value) (fields : Fields)
    → without_field k (put k v fields) ≡ without_field k fields
unfolding put without_field
without_field-put k v end = rw (==_refl k) refl
without_field-put k v (field j w fields) =
    let ih = without_field-put k v fields in
    elim (Bool-cases (k == j)) [
      | inl e ↦ rw (e, ==_refl k, ← ((==_iff k j).0 e), ==_refl k) refl
      | inr e ↦ elim (Bool-cases (bytes_le k j)) [
        | inl f ↦ rw (e, f, ==_refl k) refl
        | inr f ↦ rw (e, f, ih) refl
      ]
    ]

pub without_key-set_key :
    (k : Bytes) (new v : Value) → without_key k (set_key k new v) ≡ without_key k v
unfolding without_key set_key
without_key-set_key k new (object fields) = ap object (without_field-put k new fields)
without_key-set_key k new null = refl
without_key-set_key k new (boolean b) = refl
without_key-set_key k new (number n) = refl
without_key-set_key k new (string s) = refl
without_key-set_key k new (array vs) = refl
