-- ===== src/Tools/Schemas.antt =====
-- astra/tools/schemas.py: a tool with its schema, and the check of its arguments. What a tool does to
-- the world is its own function; a timeout is one of the ways in which it raises.
use astra_ai_agent.Prelude.{
  ℕ, Bool, true, false, ◌&&◌, ◌||◌, not, List, [], ◌∷◌, Option, none, some, String, if◌then◌else◌,
}
use astra_ai_agent.Prelude.Text.{Text, text_eq}
use astra_ai_agent.Prelude.Json.{
  Json, null, flag, number, text, array, object, Fields, no_fields, field, get_field,
}

-- The types that a schema may ask for; `any_type` is none or an unknown one.
pub data ArgType : Type 0 where
  string_type int_type number_type bool_type list_type dict_type any_type : ArgType

-- The schema of one argument.
pub record ArgSpec : Type 0 where
  pub name : Text
  pub required : Bool
  pub type : ArgType

-- What an attempt comes to.
pub data Attempt : Type 0 where
  returns : Json → Attempt
  throws : Text → Attempt

pub record Tool {ℓ} (World : Type ℓ) : Type ℓ where
  pub name : String
  pub fn : World → Fields → World × Attempt
  pub input : List ArgSpec
  pub risk : ℕ
  pub requires_confirmation : Bool
  pub confirmation_delegate : String
  pub retries : ℕ
  pub rate_limit_per_min : ℕ
  pub strict : Bool
  pub agent_forbidden : Bool

pub data ValidationError : Type 0 where
  missing_argument : Text → ValidationError
  wrong_type : Text → ArgType → ValidationError
  unknown_argument : Text → ValidationError

-- `_check_type`
unfoldable pub has_type : Json → ArgType → Bool
has_type (text t) string_type = true
has_type v string_type = false
has_type (number n) int_type = true
has_type v int_type = false
has_type (number n) number_type = true
has_type v number_type = false
has_type (flag b) bool_type = true
has_type v bool_type = false
has_type (array es) list_type = true
has_type v list_type = false
has_type (object fs) dict_type = true
has_type v dict_type = false
has_type v any_type = true

-- `args[pname] not in (None, "")`
unfoldable pub is_given : Json → Bool
is_given null = false
is_given (text []) = false
is_given _ = true

unfoldable pub check_args : List ArgSpec → Fields → Option ValidationError
unfolding has_type is_given get_field
check_args [] args = none
check_args (p ∷ ps) args =
    let v = get_field p.name args in
    let rest = check_args ps args in
    if p.required && not (is_given v)
    then some (missing_argument p.name)
    else if is_given v && not (has_type v p.type)
    then some (wrong_type p.name p.type)
    else rest

unfoldable pub is_declared : Text → List ArgSpec → Bool
is_declared k [] = false
is_declared k (p ∷ ps) = text_eq p.name k || is_declared k ps

unfoldable pub check_extra : List ArgSpec → Fields → Option ValidationError
unfolding is_declared
check_extra ps no_fields = none
check_extra ps (field k v fs) = elim (is_declared k ps) [
  | true ↦ check_extra ps fs
  | false ↦ some (unknown_argument k)
]

-- A strict tool with a schema accepts no other arguments.
unfoldable pub check_strict : Bool → List ArgSpec → Fields → Option ValidationError
unfolding check_extra
check_strict false ps args = none
check_strict true [] args = none
check_strict true (p ∷ ps) args = check_extra (p ∷ ps) args

-- `satisfies`
unfoldable pub satisfies {ℓ} : {World : Type ℓ} → Tool World → Fields → Option ValidationError
unfolding check_args check_strict
satisfies tool args = elim (check_args tool.input args) [
  | some e ↦ some e
  | none ↦ check_strict tool.strict tool.input args
]
