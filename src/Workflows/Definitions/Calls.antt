-- ===== src/Workflows/Definitions/Calls.antt =====
-- Sequences of calls on the stored definitions, and what `define` does when its input is in order.
use mathlib.Core.Path.{subst}
use astra_ai_agent.Prelude.{
  ℕ, ◌≡◌, ◌⊎◌, refl, Bool, Bool-cases, true, false, inl, inr, List, [], ◌∷◌, ◌++◌, none, some,
  Option-cases, ◌==◌, ==_iff, arith,
}
use astra_ai_agent.Prelude.Text.{Text, strip, text_eq, text_eq_iff, text_eq_refl}
use astra_ai_agent.Workflows.Steps.{Checked, accepted, refused, Step, normalize_steps}
use astra_ai_agent.Workflows.Definitions.{
  Definition, Engine, Result, done, raised, Registry, check_tools, is_excluded, name_taken,
  unique_name, get_definition, NewDefinition, insert_definition, define_as, define_steps, define,
}
use astra_ai_agent.Workflows.Definitions.Updates.{
  Changes, renamed, new_name_of, new_steps_of, changed, update_found, update_definition,
  delete_definition,
}
use astra_ai_agent.Workflows.Definitions.Unique.{
  unique_name-free, has_id, Rows, Rows-append, name_taken-excluded, Rows-write_definition,
  Rows-drop_definition,
}

pub data Call : Type 0 where
  defining : Registry → NewDefinition → Call
  updating : Registry → ℕ → Changes → Call
  deleting : ℕ → Call

unfoldable pub call : Call → Engine → Engine
unfolding define update_definition delete_definition
call (defining registry new) e = (define registry new e).0
call (updating registry k c) e = (update_definition registry k c e).0
call (deleting k) e = (delete_definition k e).0

unfoldable pub calls : List Call → Engine → Engine
unfolding call
calls [] e = e
calls (c ∷ cs) e = calls cs (call c e)

abbrev pub IsConsistent : Engine → Type 0
IsConsistent e = Rows e.next_definition e.definitions

insert-IsConsistent :
    (new : NewDefinition) (final : Text) (steps : List Step) (e : Engine)
    → name_taken none e.definitions final ≡ false
    → IsConsistent e
    → IsConsistent (insert_definition new final steps e)
unfolding insert_definition
insert-IsConsistent new final steps e free h =
    Rows-append e.next_definition e.definitions _ refl free h

define_as-IsConsistent :
    (new : NewDefinition) (name : Text) (steps : List Step) (e : Engine)
    → IsConsistent e
    → IsConsistent (define_as new name steps e).0
unfolding define_as
define_as-IsConsistent new name steps e h = elim (Bool-cases new.uniquify) [
  | inl u ↦
      rw (define_as, u)
        (insert-IsConsistent new (unique_name none e.definitions name) steps e
          (unique_name-free none e.definitions name) h)
  | inr u ↦ elim (Bool-cases (name_taken none e.definitions name)) [
    | inl t ↦ rw (define_as, u, t) h
    | inr t ↦ rw (define_as, u, t) (insert-IsConsistent new name steps e t h)
  ]
]

define_steps-IsConsistent :
    (registry : Registry) (new : NewDefinition) (name : Text) (steps : List Step) (e : Engine)
    → IsConsistent e
    → IsConsistent (define_steps registry new name steps e).0
unfolding define_steps
define_steps-IsConsistent registry new name steps e h =
    elim (Option-cases (check_tools registry steps)) [
      | inl n ↦ rw (define_steps, n) (define_as-IsConsistent new name steps e h)
      | inr (err, s) ↦ rw (define_steps, s) h
    ]

Checked-cases {ℓ} :
    {A : Type ℓ} (c : Checked A) → ((a : A) × (c ≡ accepted a)) ⊎ ((e : _) × (c ≡ refused e))
Checked-cases (accepted a) = inl (a, refl)
Checked-cases (refused e) = inr (e, refl)

define-IsConsistent :
    (registry : Registry) (new : NewDefinition) (e : Engine)
    → IsConsistent e
    → IsConsistent (define registry new e).0
unfolding define
define-IsConsistent registry new e h = elim (Bool-cases (text_eq (strip new.name) [])) [
  | inl b ↦ rw (define, b) h
  | inr b ↦ elim (Checked-cases (normalize_steps new.steps)) [
    | inr (why, r) ↦ rw (define, b, r) h
    | inl (steps, a) ↦
        rw (define, b, a) (define_steps-IsConsistent registry new (strip new.name) steps e h)
  ]
]

get_definition-name_taken :
    (k : ℕ) (ds : List Definition) {d : Definition}
    → get_definition k ds ≡ some d
    → (d.id ≡ k) × (has_id k ds ≡ true) × (name_taken none ds d.name ≡ true)
unfolding get_definition name_taken is_excluded has_id
get_definition-name_taken k [] h = absurd (ground arith)
get_definition-name_taken k (x ∷ ds) {d = d} h = elim (Bool-cases (x.id == k)) [
  | inl e ↦
      let same : x ≡ d = ground (arith, h, e) in
      ground (arith, same, text_eq_refl x.name, ==_iff x.id k)
  | inr e ↦ ground (arith, get_definition-name_taken k ds {d = d} (ground arith))
]

-- A definition's own name is free for it.
own_name-free :
    (next k : ℕ) (ds : List Definition) {d : Definition}
    → Rows next ds
    → get_definition k ds ≡ some d
    → name_taken (some d.id) ds d.name ≡ false
unfolding get_definition name_taken is_excluded has_id
own_name-free next k [] r h = absurd (ground arith)
own_name-free next k (x ∷ ds) {d = d} r h = elim (Bool-cases (x.id == k)) [
  | inl e ↦
      let same : x ≡ d = ground (arith, h, e) in
      subst (λ y. name_taken (some y.id) (x ∷ ds) y.name ≡ false) same
        (ground (arith, name_taken-excluded x.id ds x.name r.1, r.2, ==_iff x.id x.id))
  | inr e ↦
      let found : get_definition k ds ≡ some d = ground arith in
      ground (
        arith,
        own_name-free next k ds {d = d} r.3 found,
        get_definition-name_taken k ds {d = d} found,
        text_eq_iff x.name d.name,
        r.2,
      )
]

-- The name that a definition gets is free for it.
abbrev NameIsFree : List Definition → Definition → Result Text → Type 0
NameIsFree ds d (raised err) = Unit
NameIsFree ds d (done n) = name_taken (some d.id) ds n ≡ false

renamed-free :
    (uniquify : Bool) (ds : List Definition) (d : Definition) (n : Text)
    → name_taken (some d.id) ds d.name ≡ false
    → NameIsFree ds d (renamed uniquify ds d n)
unfolding renamed unique_name
renamed-free uniquify ds d n own = elim (Bool-cases (text_eq n [])) [
  | inl a ↦ rw (renamed, a) tt
  | inr a ↦ elim (Bool-cases (text_eq n d.name)) [
    | inl b ↦ rw (renamed, a, b) own
    | inr b ↦ elim (Bool-cases (name_taken (some d.id) ds n)) [
      | inr c ↦ rw (renamed, a, b, c) c
      | inl c ↦ elim (Bool-cases uniquify) [
        | inl u ↦ rw (renamed, a, b, c, u) (ground (arith, c, unique_name-free (some d.id) ds n))
        | inr u ↦ rw (renamed, a, b, c, u) tt
      ]
    ]
  ]
]

new_name_of-free :
    (c : Changes) (ds : List Definition) (d : Definition)
    → name_taken (some d.id) ds d.name ≡ false
    → NameIsFree ds d (new_name_of c ds d)
unfolding new_name_of
new_name_of-free c ds d own = elim (Option-cases c.name) [
  | inl e ↦ rw (new_name_of, e) own
  | inr (n, e) ↦ rw (new_name_of, e) (renamed-free c.uniquify ds d (strip n) own)
]

Result-cases {ℓ} :
    {A : Type ℓ} (r : Result A) → ((a : A) × (r ≡ done a)) ⊎ ((e : _) × (r ≡ raised e))
Result-cases (done a) = inl (a, refl)
Result-cases (raised e) = inr (e, refl)

update_found-IsConsistent :
    (registry : Registry) (c : Changes) (d : Definition) (e : Engine)
    → name_taken (some d.id) e.definitions d.name ≡ false
    → IsConsistent e
    → IsConsistent (update_found registry c d e).0
unfolding update_found changed
update_found-IsConsistent registry c d e own h =
    elim (Result-cases (new_name_of c e.definitions d)) [
      | inr (err, r) ↦ rw (update_found, r) h
      | inl (name, r) ↦ elim (Result-cases (new_steps_of registry c.steps d)) [
        | inr (err, s) ↦ rw (update_found, r, s) h
        | inl (steps, s) ↦
            let free =
              subst (NameIsFree e.definitions d) r (new_name_of-free c e.definitions d own) in
            rw (update_found, r, s)
              (Rows-write_definition e.next_definition (changed c d name steps) e.definitions free
                h)
      ]
    ]

call-IsConsistent : (c : Call) (e : Engine) → IsConsistent e → IsConsistent (call c e)
unfolding call update_definition delete_definition
call-IsConsistent (defining registry new) e h = define-IsConsistent registry new e h
call-IsConsistent (updating registry k c) e h =
    elim (Option-cases (get_definition k e.definitions)) [
      | inl n ↦ rw (call, update_definition, n) h
      | inr (d, s) ↦
          rw (call, update_definition, s)
            (update_found-IsConsistent registry c d e
              (own_name-free e.next_definition k e.definitions {d = d} h s) h)
    ]
call-IsConsistent (deleting k) e h = elim (Option-cases (get_definition k e.definitions)) [
  | inl n ↦ rw (call, delete_definition, n) h
  | inr (d, s) ↦
      rw (call, delete_definition, s) (Rows-drop_definition e.next_definition k e.definitions h)
]

-- Every sequence of `define`, `update_definition` and `delete_definition`, whatever its arguments,
-- keeps the rows consistent: identifiers below the next one, no two rows with the same identifier
-- and no two with the same name.
pub calls-IsConsistent : (cs : List Call) (e : Engine) → IsConsistent e → IsConsistent (calls cs e)
unfolding calls
calls-IsConsistent [] e h = h
calls-IsConsistent (c ∷ cs) e h = calls-IsConsistent cs (call c e) (call-IsConsistent c e h)

-- For a name that is not blank, steps that pass the checks and registered tools, `define` with
-- `uniquify` adds one row behind the others, under the next identifier, with those steps and a name
-- that no other row has; the name is the one asked for when that is free.
pub define-uniquify :
    (registry : Registry) (new : NewDefinition) (e : Engine) {steps : List Step}
    → text_eq (strip new.name) [] ≡ false
    → normalize_steps new.steps ≡ accepted steps
    → check_tools registry steps ≡ none
    → new.uniquify ≡ true
    → (row : Definition) × ((define registry new e).0.definitions ≡ e.definitions ++ row ∷ [])
      × ((define registry new e).1 ≡ done row.id)
      × (row.id ≡ e.next_definition)
      × (row.steps ≡ steps)
      × (name_taken none e.definitions row.name ≡ false)
      × (name_taken none e.definitions (strip new.name) ≡ false → row.name ≡ strip new.name)
unfolding define define_steps define_as insert_definition unique_name
define-uniquify registry new e {steps = steps} b a t u =
    let final = unique_name none e.definitions (strip new.name) in
    let row : Definition = record {
      id = e.next_definition;
      name = final;
      description = new.description;
      steps = steps;
      layout = new.layout;
      enabled = true;
    } in
    (
      row,
      rw (define, b, a, define_steps, t, define_as, u) refl,
      rw (define, b, a, define_steps, t, define_as, u) refl,
      refl,
      refl,
      unique_name-free none e.definitions (strip new.name),
      λ free. rw (unique_name, free) refl,
    )
