-- ===== src/Base/Value.antt =====
-- The values of a dynamic dictionary, `dict[str, Any]`, and what `json` makes of them.
use aero_risk_ai.Base.{
  String, Bool, true, false, Option, none, some, ◌≡◌, refl, List, [], ◌∷◌, arith, str_eq, eq_iff,
  if◌then◌else◌,
}
use aero_risk_ai.Base.Int.{ℤ}

mutual
  pub data Value (F : Type 0) : Type 0 where
    null : Value F
    bool : Bool → Value F
    int : ℤ → Value F
    float : F → Value F
    str : String → Value F
    list : Values F → Value F
    dict : Fields F → Value F

  pub data Values (F : Type 0) : Type 0 where
    nil : Values F
    cons : Value F → Values F → Values F

  pub data Fields (F : Type 0) : Type 0 where
    end : Fields F
    field : String → Value F → Fields F → Fields F

module _ {F : Type 0} where
  abbrev pub values : List (Value F) → Values F
  values [] = nil
  values (x ∷ xs) = cons x (values xs)

  abbrev pub fields : List (String × Value F) → Fields F
  fields [] = end
  fields ((k, x) ∷ xs) = field k x (fields xs)

  abbrev pub strings : List String → Value F
  strings [] = list nil
  strings (s ∷ ss) = list (values (texts (s ∷ ss)))
    where
      texts : List String → List (Value F)
      texts [] = []
      texts (t ∷ ts) = str t ∷ texts ts

-- `d.get(key)`
abbrev pub get_field : {F : Type 0} → String → Fields F → Option (Value F)
get_field key end = none
get_field key (field k v rest) = if str_eq k key then some v else get_field key rest

-- `d[key] = v`
abbrev pub set_field : {F : Type 0} → String → Value F → Fields F → Fields F
set_field key v end = field key v end
set_field key v (field k w rest) =
    if str_eq k key then field k v rest else field k w (set_field key v rest)

-- `key in d`
abbrev pub has_field : {F : Type 0} → String → Fields F → Bool
has_field key end = false
has_field key (field k v rest) = if str_eq k key then true else has_field key rest

module _ {F : Type 0} where
  pub get_field-set_field :
      (key other : String) (v : Value F) (fs : Fields F)
      → get_field other (set_field key v fs)
        ≡ (if str_eq key other then some v else get_field other fs)
  get_field-set_field key other v end = refl
  get_field-set_field key other v (field k w rest) =
      ground (
        arith,
        eq_iff key other,
        eq_iff k key,
        eq_iff k other,
        get_field-set_field key other v rest,
      )
