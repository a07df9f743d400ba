-- ===== src/Prelude/Json.antt =====
-- JSON values: steps of workflows, parameters and arguments of tools. Numbers are integers.
use mathlib.Core.Bool.{Bool, true, false}
use mathlib.Core.List.{[], ◌∷◌}
use astra_ai_agent.Prelude.Int.{ℤ, truthy_ℤ}
use astra_ai_agent.Prelude.Text.{Text, text_eq}

mutual
  pub data Json : Type 0 where
    null : Json
    flag : Bool → Json
    number : ℤ → Json
    text : Text → Json
    array : Elements → Json
    object : Fields → Json

  pub data Elements : Type 0 where
    no_elements : Elements
    element : Json → Elements → Elements

  pub data Fields : Type 0 where
    no_fields : Fields
    field : Text → Json → Fields → Fields

-- `d.get(k)`: `None` when the key is missing.
unfoldable pub get_field : Text → Fields → Json
get_field k no_fields = null
get_field k (field j v fs) = elim (text_eq j k) [ true ↦ v | false ↦ get_field k fs ]

-- `bool(v)`.
unfoldable pub truthy : Json → Bool
truthy null = false
truthy (flag b) = b
truthy (number n) = truthy_ℤ n
truthy (text []) = false
truthy (text (_ ∷ _)) = true
truthy (array no_elements) = false
truthy (array (element _ _)) = true
truthy (object no_fields) = false
truthy (object (field _ _ _)) = true
