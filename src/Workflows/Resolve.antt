-- ===== src/Workflows/Resolve.antt =====
-- The placeholders `{{x}}` of a step's parameters, and its condition (`_resolve`, `_lookup` and
-- `_condition` of astra/workflows/engine.py). Python's `str` of a value is a parameter, and the
-- characters of `\w` are the ASCII ones.
pub mod Fuel
use astra_ai_agent.Prelude.{
  ℕ, zero, suc, Bool, true, false, ◌&&◌, ◌||◌, not, List, [], ◌∷◌, ◌++◌, Option, none, some, leb,
  ◌==◌, length, if◌then◌else◌,
}
use astra_ai_agent.Prelude.Text.{Text, codes, text_eq, skip_spaces}
use astra_ai_agent.Prelude.Json.{Json, text, object, Fields, no_fields, field, get_field, truthy}
use astra_ai_agent.Workflows.Steps.{op_ok, op_not_ok, Condition}

-- What each step left.
abbrev pub Results : Type 0
Results = List (Text × Fields)

unfoldable pub find_result : Text → Results → Option Fields
find_result k [] = none
find_result k ((j, fs) ∷ rs) = if text_eq j k then some fs else find_result k rs

-- `results[sid] = fs`
unfoldable pub put_result : Text → Fields → Results → Results
put_result k fs [] = (k, fs) ∷ []
put_result k fs ((j, gs) ∷ rs) =
    let rest = put_result k fs rs in if text_eq j k then (j, fs) ∷ rs else (j, gs) ∷ rest

-- `d.get(k)`, with whether the key is there.
unfoldable pub find_field : Text → Fields → Option Json
find_field k no_fields = none
find_field k (field j v fs) = elim (text_eq j k) [ true ↦ some v | false ↦ find_field k fs ]

-- `cur.get(p, "") if isinstance(cur, dict) else ""`
unfoldable pub get_part : Text → Json → Json
unfolding find_field
get_part p (object fs) = elim (find_field p fs) [ some v ↦ v | none ↦ text [] ]
get_part p _ = text []

unfoldable pub get_parts : List Text → Json → Json
unfolding get_part
get_parts [] v = v
get_parts (p ∷ ps) v = get_parts ps (get_part p v)

-- `path.split(".")`, with the part that is read.
unfoldable pub split_dots : Text → Text → List Text
split_dots part [] = part ∷ []
split_dots part (c ∷ s) = elim (c == b'.') [
  | true ↦ part ∷ split_dots [] s
  | false ↦ split_dots (part ++ c ∷ []) s
]

unfoldable pub lookup_parts : List Text → Results → Fields → Json
unfolding find_result get_parts find_field
lookup_parts [] results params = text []
lookup_parts (p ∷ ps) results params = elim (find_result p results) [
  | some fs ↦ get_parts ps (object fs)
  | none ↦ elim (find_field p params) [ some v ↦ v | none ↦ text [] ]
]

-- `_lookup`
unfoldable pub lookup_path : Text → Results → Fields → Json
unfolding split_dots lookup_parts
lookup_path path results params = lookup_parts (split_dots [] path) results params

-- `[\w.]`
abbrev pub is_word : ℕ → Bool
is_word c =
    (leb b'0' c && leb c b'9')
    || (leb b'A' c && leb c b'Z')
    || (leb b'a' c && leb c b'z')
    || c == b'_'
    || c == b'.'

-- The longest word at the start, and what is behind it.
unfoldable pub span_word : Text → Text × Text
span_word [] = ([], [])
span_word (c ∷ s) =
    let rest = span_word s in if is_word c then (c ∷ rest.0, rest.1) else ([], c ∷ s)

-- What is behind `}}`.
unfoldable pub close_braces : Text → Option Text
close_braces (c ∷ d ∷ s) = if c == b'}' && d == b'}' then some s else none
close_braces _ = none

-- The path behind `{{`, and what is behind the placeholder.
unfoldable pub placeholder : Text → Option (Text × Text)
unfolding span_word close_braces
placeholder s =
    let word = span_word (skip_spaces s) in
    elim (text_eq word.0 []) [
      | true ↦ none
      | false ↦ elim (close_braces (skip_spaces word.1)) [
        | some rest ↦ some (word.0, rest)
        | none ↦ none
      ]
    ]

-- A placeholder at the start of a text.
unfoldable pub at_placeholder : Text → Option (Text × Text)
unfolding placeholder
at_placeholder (c ∷ d ∷ s) = elim (c == b'{' && d == b'{') [ true ↦ placeholder s | false ↦ none ]
at_placeholder _ = none

module _ (show : Json → Text) where
  -- `re.sub`; the length of the text is fuel enough, since each round takes a character.
  unfoldable pub substitute : ℕ → Results → Fields → Text → Text
  unfolding at_placeholder lookup_path
  substitute zero results params s = s
  substitute (suc f) results params [] = []
  substitute (suc f) results params (c ∷ s) = elim (at_placeholder (c ∷ s)) [
    | some (path, rest) ↦ show (lookup_path path results params) ++ substitute f results params rest
    | none ↦ c ∷ substitute f results params s
  ]

  unfoldable pub resolve_value : Results → Fields → Json → Json
  unfolding substitute
  resolve_value results params (text s) = text (substitute (length s) results params s)
  resolve_value results params v = v

  -- `_resolve`
  unfoldable pub resolve : Results → Fields → Fields → Fields
  unfolding resolve_value
  resolve results params no_fields = no_fields
  resolve results params (field k v fs) =
      field k (resolve_value results params v) (resolve results params fs)

-- `bool(step.get("ok"))`, and false for a step without a result.
unfoldable pub was_ok : Option Fields → Bool
unfolding truthy get_field
was_ok none = false
was_ok (some fs) = truthy (get_field (codes "ok") fs)

-- `_condition`
unfoldable pub condition_holds : Condition → Results → Bool
unfolding was_ok find_result
condition_holds c results = elim c.op [
  | op_ok ↦ was_ok (find_result c.step results)
  | op_not_ok ↦ not (was_ok (find_result c.step results))
]
