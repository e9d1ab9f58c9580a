-- ===== src/Api/Crd/Values.antt =====
-- What an `interface{}` holds that was decoded from JSON, and the maps of unstructured objects.
use kubecp.Common.{
  ℤ, String, str_eq, ◌≡◌, refl, eq_iff, arith, Bool, false, Option, none, some, List, [], ◌∷◌,
  if◌then◌else◌, pos,
}

-- A float64 is held as the integer that the conversion to int64 takes of it: the program reads no
-- more of one. `nil` is also what a map answers for a missing key.
mutual
  pub data Value : Type 0 where
    nil : Value
    bool : Bool → Value
    int64 : ℤ → Value
    float64 : ℤ → Value
    text : String → Value
    slice : Values → Value
    object : Fields → Value

  pub data Values : Type 0 where
    no_values : Values
    value : Value → Values → Values

  pub data Fields : Type 0 where
    no_fields : Fields
    entry : String → Value → Fields → Fields

-- `m[key]`
unfoldable pub get : String → Fields → Value
get key no_fields = nil
get key (entry k v m) = if str_eq k key then v else get key m

-- `m[key] = v`
unfoldable pub put : String → Value → Fields → Fields
put key v no_fields = entry key v no_fields
put key v (entry k w m) = if str_eq k key then entry k v m else entry k w (put key v m)

-- A key that was put reads as what was put there, and no other key changes.
pub get-put :
    (j k : String) (v : Value) (m : Fields)
    → get k (put j v m) ≡ (if str_eq j k then v else get k m)
unfolding get put
get-put j k v no_fields = refl
get-put j k v (entry i w m) = ground (arith, eq_iff i j, eq_iff i k, eq_iff j k, get-put j k v m)

-- `m, _ := v.(map[string]interface{})`, `none` for a nil map
abbrev pub as_map : Value → Option Fields
as_map (object m) = some m
as_map _ = none

-- `if m == nil { m = make(…) }`
abbrev pub or_empty : Option Fields → Fields
or_empty none = no_fields
or_empty (some m) = m

-- `s, _ := v.(string)`
abbrev pub as_text : Value → String
as_text (text s) = s
as_text _ = ""

-- `b, _ := v.(bool)`
abbrev pub as_bool : Value → Bool
as_bool (bool b) = b
as_bool _ = false

-- `v.(int64)`, or else `int64(v.(float64))`
abbrev pub as_int : Value → Option ℤ
as_int (int64 n) = some n
as_int (float64 n) = some n
as_int _ = none

abbrev pub int_or_zero : Value → ℤ
int_or_zero v = elim (as_int v) [ none ↦ pos 0 | some n ↦ n ]

-- `l, _ := v.([]interface{})`
abbrev pub as_slice : Value → Values
as_slice (slice l) = l
as_slice _ = no_values

abbrev pub cons_text : Value → List String → List String
cons_text (text s) rest = s ∷ rest
cons_text _ rest = rest

-- The strings of a slice, in order.
unfoldable pub texts_of : Values → List String
texts_of no_values = []
texts_of (value v l) = cons_text v (texts_of l)

-- A `[]string` as a `[]interface{}`
unfoldable pub of_texts : List String → Values
of_texts [] = no_values
of_texts (s ∷ l) = value (text s) (of_texts l)

pub texts_of-of_texts : (l : List String) → texts_of (of_texts l) ≡ l
unfolding texts_of of_texts
texts_of-of_texts [] = refl
texts_of-of_texts (s ∷ l) = rw (texts_of-of_texts l) refl
