-- ===== src/Workflows/Definitions/Unique.antt =====
-- The names of the stored definitions stay distinct, and `define` finds a free one.
use mathlib.Core.List.{append_cancel_left}
use astra_ai_agent.Prelude.{
  ℕ, suc, ◌<◌, ◌≤◌, ◌≡◌, refl, Bool, Bool-cases, true, false, ◌||◌, inl, inr, List, [], ◌∷◌, ◌++◌,
  Option, none, some, ◌==◌, ==_iff, length, arith, if◌then◌else◌,
}
use astra_ai_agent.Prelude.Text.{Text, codes, text_eq, text_eq_iff, text_mem}
use astra_ai_agent.Workflows.Names.{decimal}
use astra_ai_agent.Workflows.Names.Free.{decimal-injective, first_free_lem}
use astra_ai_agent.Workflows.Definitions.{
  Definition, is_excluded, name_taken, numbered_name, unique_name,
}
use astra_ai_agent.Workflows.Definitions.Updates.{write_definition, drop_definition}

-- The names of the rows that count.
unfoldable names : Option ℕ → List Definition → List Text
names exclude [] = []
names exclude (d ∷ ds) =
    let rest = names exclude ds in if is_excluded exclude d.id then rest else d.name ∷ rest

name_taken-names :
    (exclude : Option ℕ) (ds : List Definition) (t : Text)
    → name_taken exclude ds t ≡ text_mem t (names exclude ds)
unfolding name_taken names text_mem
name_taken-names exclude [] t = refl
name_taken-names exclude (d ∷ ds) t =
    ground (arith, text_eq_iff d.name t, text_eq_iff t d.name, name_taken-names exclude ds t)

length-names : (exclude : Option ℕ) (ds : List Definition) → length (names exclude ds) ≤ length ds
unfolding names
length-names exclude [] = omega arith
length-names exclude (d ∷ ds) = ground (arith, length-names exclude ds)

numbered_name-injective :
    (base : Text) (m n : ℕ) → numbered_name base m ≡ numbered_name base n → m ≡ n
unfolding numbered_name
numbered_name-injective base m n e =
    decimal-injective m n
      (append_cancel_left (codes " ") (decimal m) (decimal n) (append_cancel_left base _ _ e))

pub unique_name-free :
    (exclude : Option ℕ) (ds : List Definition) (base : Text)
    → name_taken exclude ds (unique_name exclude ds base) ≡ false
unfolding unique_name
unique_name-free exclude ds base = elim (Bool-cases (name_taken exclude ds base)) [
  | inr e ↦ rw (unique_name, e) e
  | inl e ↦
      rw (unique_name, e)
        (first_free_lem (names exclude ds) (numbered_name base) (name_taken exclude ds)
          (name_taken-names exclude ds) (numbered_name-injective base) (suc (length ds)) 2
          (omega (arith, length-names exclude ds)))
]

unfoldable pub has_id : ℕ → List Definition → Bool
has_id k [] = false
has_id k (d ∷ ds) = (d.id == k) || has_id k ds

-- Rows with distinct identifiers below the next one, and with distinct names.
abbrev pub Rows : ℕ → List Definition → Type 0
Rows next [] = Unit
Rows next (d ∷ ds) =
    (d.id < next) × (has_id d.id ds ≡ false) × (name_taken none ds d.name ≡ false) × Rows next ds

name_taken-append :
    (ds : List Definition) (d : Definition) (t : Text)
    → name_taken none (ds ++ d ∷ []) t ≡ (if text_eq d.name t then true else name_taken none ds t)
unfolding name_taken is_excluded
name_taken-append [] d t = ground arith
name_taken-append (x ∷ ds) d t = ground (arith, name_taken-append ds d t)

has_id-append :
    (ds : List Definition) (d : Definition) (k : ℕ)
    → has_id k (ds ++ d ∷ []) ≡ (if d.id == k then true else has_id k ds)
unfolding has_id
has_id-append [] d k = ground arith
has_id-append (x ∷ ds) d k = ground (arith, has_id-append ds d k)

pub Rows-append :
    (next : ℕ) (ds : List Definition) (d : Definition)
    → d.id ≡ next
    → name_taken none ds d.name ≡ false
    → Rows next ds
    → Rows (suc next) (ds ++ d ∷ [])
unfolding name_taken has_id is_excluded
Rows-append next [] d e free h = (omega (arith, e), refl, refl, tt)
Rows-append next (x ∷ ds) d e free h = (
  omega (arith, h.0),
  ground (arith, has_id-append ds d x.id, h.0, h.1, e),
  ground (
    arith,
    name_taken-append ds d x.name,
    h.2,
    text_eq_iff d.name x.name,
    text_eq_iff x.name d.name,
  ),
  Rows-append next ds d e (ground arith) h.3,
)

-- A row whose name no other row has.
abbrev IsFreeFor : List Definition → Definition → Type 0
IsFreeFor ds d = name_taken (some d.id) ds d.name ≡ false

has_id-write_definition :
    (new : Definition) (ds : List Definition) (k : ℕ)
    → has_id k (write_definition new ds) ≡ has_id k ds
unfolding has_id write_definition
has_id-write_definition new [] k = refl
has_id-write_definition new (d ∷ ds) k =
    ground (arith, has_id-write_definition new ds k, ==_iff d.id new.id)

write_definition-absent :
    (new : Definition) (ds : List Definition)
    → has_id new.id ds ≡ false
    → write_definition new ds ≡ ds
unfolding has_id write_definition
write_definition-absent new [] h = refl
write_definition-absent new (d ∷ ds) h = ground (arith, write_definition-absent new ds)

name_taken-write_definition :
    (new : Definition) (ds : List Definition) (t : Text)
    → text_eq new.name t ≡ false
    → name_taken none ds t ≡ false
    → name_taken none (write_definition new ds) t ≡ false
unfolding name_taken write_definition is_excluded
name_taken-write_definition new [] t ne h = refl
name_taken-write_definition new (d ∷ ds) t ne h =
    ground (arith, name_taken-write_definition new ds t)

pub name_taken-excluded :
    (k : ℕ) (ds : List Definition) (t : Text)
    → has_id k ds ≡ false
    → name_taken (some k) ds t ≡ name_taken none ds t
unfolding name_taken has_id is_excluded
name_taken-excluded k [] t h = refl
name_taken-excluded k (d ∷ ds) t h =
    ground (arith, name_taken-excluded k ds t, ==_iff d.id k, ==_iff k d.id)

pub Rows-write_definition :
    (next : ℕ) (new : Definition) (ds : List Definition)
    → IsFreeFor ds new
    → Rows next ds
    → Rows next (write_definition new ds)
unfolding name_taken has_id write_definition is_excluded
Rows-write_definition next new [] free h = tt
Rows-write_definition next new (d ∷ ds) free h = elim (Bool-cases (d.id == new.id)) [
  | inl e ↦
      let absent : has_id new.id ds ≡ false = ground (arith, h.1, ==_iff d.id new.id) in
      let rest = write_definition-absent new ds absent in
      rw (write_definition, e, rest)
        (
          ground (arith, h.0, ==_iff d.id new.id),
          absent,
          ground (arith, name_taken-excluded new.id ds new.name absent, free),
          h.3,
        )
  | inr e ↦
      rw (write_definition, e)
        (
          h.0,
          ground (arith, has_id-write_definition new ds d.id, h.1),
          name_taken-write_definition new ds d.name
              (ground (
                arith,
                free,
                ==_iff d.id new.id,
                ==_iff new.id d.id,
                text_eq_iff d.name new.name,
                text_eq_iff new.name d.name,
              ))
              h.2,
          Rows-write_definition next new ds (ground (arith, free)) h.3,
        )
]

has_id-drop_definition :
    (k j : ℕ) (ds : List Definition) → has_id j ds ≡ false → has_id j (drop_definition k ds) ≡ false
unfolding has_id drop_definition
has_id-drop_definition k j [] h = refl
has_id-drop_definition k j (d ∷ ds) h = ground (arith, has_id-drop_definition k j ds)

name_taken-drop_definition :
    (k : ℕ) (ds : List Definition) (t : Text)
    → name_taken none ds t ≡ false
    → name_taken none (drop_definition k ds) t ≡ false
unfolding name_taken drop_definition is_excluded
name_taken-drop_definition k [] t h = refl
name_taken-drop_definition k (d ∷ ds) t h = ground (arith, name_taken-drop_definition k ds t)

pub Rows-drop_definition :
    (next k : ℕ) (ds : List Definition) → Rows next ds → Rows next (drop_definition k ds)
unfolding drop_definition
Rows-drop_definition next k [] h = tt
Rows-drop_definition next k (d ∷ ds) h = elim (Bool-cases (d.id == k)) [
  | inl e ↦ rw (drop_definition, e) (Rows-drop_definition next k ds h.3)
  | inr e ↦
      rw (drop_definition, e)
        (
          h.0,
          has_id-drop_definition k d.id ds h.1,
          name_taken-drop_definition k ds d.name h.2,
          Rows-drop_definition next k ds h.3,
        )
]
