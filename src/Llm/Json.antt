-- ===== src/Llm/Json.antt =====
-- The values that encoding/json gives, as a `map[string]interface{}` holds them. `F` is `float64`.
use llm_request_balancer.Common.{String, Bool, Option, none, some, if◌then◌else◌, str_eq}

mutual
  pub data Value (F : Type 0) : Type 0 where
    null : Value F
    boolean : Bool → Value F
    number : F → Value F
    text : String → Value F
    array : Values F → Value F
    object : Fields F → Value F

  pub data Values (F : Type 0) : Type 0 where
    nil : Values F
    cons : Value F → Values F → Values F

  pub data Fields (F : Type 0) : Type 0 where
    end : Fields F
    field : String → Value F → Fields F → Fields F

module _ {F : Type 0} where
  -- `m[k]` and `m[k] = v`.
  unfoldable pub find : String → Fields F → Option (Value F)
  find k end = none
  find k (field j v m) = let rest = find k m in if str_eq j k then some v else rest

  unfoldable pub without : String → Fields F → Fields F
  without k end = end
  without k (field j v m) = let rest = without k m in if str_eq j k then rest else field j v rest

  unfoldable pub set : String → Value F → Fields F → Fields F
  unfolding without
  set k v m = field k v (without k m)

  -- `v.(string)`, `v.([]interface{})`, `v.(map[string]interface{})` and `v.(float64)`.
  abbrev pub as_text : Option (Value F) → Option String
  as_text (some (text s)) = some s
  as_text v = none

  abbrev pub as_array : Option (Value F) → Option (Values F)
  as_array (some (array vs)) = some vs
  as_array v = none

  abbrev pub as_object : Option (Value F) → Option (Fields F)
  as_object (some (object m)) = some m
  as_object v = none

  abbrev pub as_number : Option (Value F) → Option F
  as_number (some (number x)) = some x
  as_number v = none

  -- Reading a nil map gives nothing, and ranging over it makes no pass.
  abbrev pub entries : Option (Fields F) → Fields F
  entries none = end
  entries (some m) = m
