-- ===== src/Json.antt =====
-- The JavaScript values that the program handles, as `JSON.parse` returns them: what `!v`,
-- `v.length`, `v.includes`, `v.split`, a property read or write, a template literal and a
-- comparison with a number do on each of them, a TypeError included.
-- A value that may be `undefined` is an `Option Json`. JSON numbers are natural numbers here.
pub mod Doc
pub mod Laws
use temporal_cloud_offering.Prelude.{
  ◌≡◌, refl, ◌⊎◌, inl, inr, ℕ, zero, suc, ◌+◌, ◌/◌, ◌%◌, Bool, true, false, not, ◌||◌, List, [],
  ◌∷◌, ◌++◌, Option, none, some, ltb, eqb, if◌then◌else◌, length, arith,
}
use temporal_cloud_offering.Text.{
  Text, codes, non_empty, includes, first_part, lookup, insert, ◌==◌,
}
use temporal_cloud_offering.Text.Laws.{==_iff}

mutual
  pub data Json : Type 0 where
    null : Json
    bool : Bool → Json
    num : ℕ → Json
    str : Text → Json
    arr : Items → Json
    obj : Fields → Json

  pub data Items : Type 0 where
    nil : Items
    cons : Json → Items → Items

  pub data Fields : Type 0 where
    end : Fields
    field : Text → Json → Fields → Fields

abbrev pub Value : Type 0
Value = Option Json

-- An expression that may throw.
pub data Try {ℓ} (A : Type ℓ) : Type ℓ where
  fine : A → Try A
  type_error : Try A

pub Try-cases {ℓ} : {A : Type ℓ} (t : Try A) → (t ≡ type_error) ⊎ ((a : A) × (t ≡ fine a))
Try-cases (fine a) = inr (a, refl)
Try-cases type_error = inl refl

abbrev pub map_try {ℓ κ} : {A : Type ℓ} {B : Type κ} → (A → B) → Try A → Try B
map_try f (fine a) = fine (f a)
map_try f type_error = type_error

-- The properties of an object, in order.
abbrev pub fields : Fields → List (Text × Json)
fields end = []
fields (field k v fs) = (k, v) ∷ fields fs

abbrev pub object : List (Text × Json) → Fields
object [] = end
object ((k, v) ∷ m) = field k v (object m)

-- `!v` is `not (truthy v)`.
abbrev pub truthy : Value → Bool
truthy none = false
truthy (some null) = false
truthy (some (bool b)) = b
truthy (some (num n)) = not (eqb n 0)
truthy (some (str s)) = non_empty s
truthy (some (arr _)) = true
truthy (some (obj _)) = true

-- `v.name` for a name that is not on the prototypes.
abbrev pub member : Value → Text → Try Value
member none name = type_error
member (some null) name = type_error
member (some (obj fs)) name = fine (lookup name (fields fs))
member (some _) name = fine none

-- `v.name = value` in a module: strict mode throws on a primitive; an array takes a property that
-- `JSON.stringify` leaves out.
abbrev pub set_member : Json → Text → Json → Try Json
set_member (obj fs) name value = fine (obj (object (insert name value (fields fs))))
set_member (arr xs) name value = fine (arr xs)
set_member _ name value = type_error

-- `v.split(separator)[0]`
abbrev pub split_first : Value → Text → Try Text
split_first (some (str s)) separator = fine (first_part s separator)
split_first _ separator = type_error

unfoldable pub contains_item : Items → Text → Bool
contains_item nil s = false
contains_item (cons (str t) xs) s = t == s || contains_item xs s
contains_item (cons _ xs) s = contains_item xs s

-- `v.includes(s)`: of a string, or of an array
abbrev pub has : Value → Text → Try Bool
has (some (str t)) s = fine (includes t s)
has (some (arr xs)) s = fine (contains_item xs s)
has _ s = type_error

-- `v === s` for a string `s`
abbrev pub is_text : Value → Text → Bool
is_text (some (str t)) s = t == s
is_text _ s = false

digits_from : ℕ → ℕ → Text → Text
digits_from zero n acc = acc
digits_from (suc fuel) n acc =
    let acc' = (b'0' + n % 10) ∷ acc in
    let rest = digits_from fuel (n / 10) acc' in if eqb (n / 10) 0 then acc' else rest

-- A number in decimal; the fuel is one more than the number.
unfoldable pub decimal : ℕ → Text
unfolding digits_from
decimal n = digits_from (suc n) n []

unfoldable mutual
  -- `${v}`
  pub to_text : Json → Text
  to_text null = codes "null"
  to_text (bool true) = codes "true"
  to_text (bool false) = codes "false"
  to_text (num n) = decimal n
  to_text (str s) = s
  to_text (arr xs) = join_items xs
  to_text (obj _) = codes "[object Object]"

  -- An array as a string: its items between commas, `null` as nothing.
  pub join_items : Items → Text
  join_items nil = []
  join_items (cons null xs) = join_rest xs
  join_items (cons x xs) = to_text x ++ join_rest xs

  pub join_rest : Items → Text
  join_rest nil = []
  join_rest (cons null xs) = b',' ∷ join_rest xs
  join_rest (cons x xs) = b',' ∷ to_text x ++ join_rest xs

abbrev pub text_of : Value → Text
text_of none = codes "undefined"
text_of (some v) = to_text v

abbrev pub count_items : Items → ℕ
count_items nil = 0
count_items (cons _ xs) = suc (count_items xs)

-- `v.length`
abbrev pub length_of : Value → Try Value
length_of none = type_error
length_of (some null) = type_error
length_of (some (str s)) = fine (some (num (length s)))
length_of (some (arr xs)) = fine (some (num (count_items xs)))
length_of (some (obj fs)) = fine (lookup (codes "length") (fields fs))
length_of (some _) = fine none

-- `v < n` and `n > v` for a number `n`. How a string is read as a number is a parameter.
module _ (text_below : Text → ℕ → Bool) where
  unfoldable pub below : Value → ℕ → Bool
  unfolding to_text
  below none n = false
  below (some null) n = ltb 0 n
  below (some (bool true)) n = ltb 1 n
  below (some (bool false)) n = ltb 0 n
  below (some (num m)) n = ltb m n
  below (some (str s)) n = text_below s n
  below (some (arr xs)) n = text_below (join_items xs) n
  below (some (obj _)) n = false

-- An object literal, as `JSON.stringify` prints it: a property that is `undefined` is left out.
abbrev pub present_fields : List (Text × Value) → List (Text × Json)
present_fields [] = []
present_fields ((k, none) ∷ m) = present_fields m
present_fields ((k, some v) ∷ m) = (k, v) ∷ present_fields m

abbrev pub literal : List (Text × Value) → Json
literal m = obj (object (present_fields m))

-- An `undefined` item of an array is printed as `null`.
abbrev pub or_null : Value → Json
or_null none = null
or_null (some v) = v

pub is_text-eq : (v : Value) (s : Text) → is_text v s ≡ true → v ≡ some (str s)
is_text-eq none s h = cc
is_text-eq (some (str t)) s h = ground (arith, (==_iff t s).0 h)
is_text-eq (some _) s h = cc
