-- ===== src/Terminal/Approval/Table.antt =====
-- What `find` and the counts of threads see of each change.
use astra_ai_agent.Prelude.{
  ℕ, suc, ◌+◌, ◌≡◌, ◌≢◌, inl, inr, refl, true, false, Bool-cases, Option, none, some, List, [], ◌∷◌,
  ◌++◌, String, str_eq, eq_iff, arith, if◌then◌else◌,
}
use astra_ai_agent.Terminal.Approval.{ApprovalRequest, Run, mem, remove, find, update}

-- A change that leaves the key of a request alone.
abbrev pub KeepsId : (ApprovalRequest → ApprovalRequest) → Type 0
KeepsId f = (r : ApprovalRequest) → (f r).approval_id ≡ r.approval_id

abbrev pub on_row :
    (ApprovalRequest → ApprovalRequest) → Option ApprovalRequest → Option ApprovalRequest
on_row f none = none
on_row f (some r) = some (f r)

pub find-update :
    (k j : String) (f : ApprovalRequest → ApprovalRequest)
    → KeepsId f
    → (rows : List ApprovalRequest)
    → find j (update k f rows) ≡ (if str_eq k j then on_row f (find j rows) else find j rows)
unfolding find update
find-update k j f keeps [] = ground arith
find-update k j f keeps (r ∷ rs) = ground (
  arith,
  keeps r,
  eq_iff r.approval_id k,
  eq_iff r.approval_id j,
  eq_iff k j,
  find-update k j f keeps rs,
)

pub find-insert :
    (j : String) (r : ApprovalRequest) (rows : List ApprovalRequest)
    → find j (rows ++ r ∷ []) ≡ elim (find j rows) [
      | some q ↦ some q
      | none ↦ if str_eq r.approval_id j then some r else none
    ]
unfolding find
find-insert j r [] = refl
find-insert j r (q ∷ rows) = ground (arith, find-insert j r rows)

pub find-id :
    (k : String) (rows : List ApprovalRequest) {r : ApprovalRequest}
    → find k rows ≡ some r
    → r.approval_id ≡ k
unfolding find
find-id k [] h = cc
find-id k (q ∷ rows) {r = r} h = elim (Bool-cases (str_eq q.approval_id k)) [
  | inl e ↦ ground (arith, eq_iff q.approval_id k)
  | inr e ↦ find-id k rows {r = r} (ground arith)
]

-- How many threads are at a key.
unfoldable pub count : String → List String → ℕ
count k [] = 0
count k (j ∷ js) = if str_eq j k then suc (count k js) else count k js

-- How often the executor was called for a key.
unfoldable pub count_runs : String → List Run → ℕ
count_runs k [] = 0
count_runs k (r ∷ rs) = if str_eq r.approval_id k then suc (count_runs k rs) else count_runs k rs

pub count-remove :
    (k : String) (ks : List String) → mem k ks ≡ true → count k ks ≡ suc (count k (remove k ks))
unfolding count mem remove
count-remove k [] h = ground arith
count-remove k (j ∷ js) h = ground (arith, count-remove k js)

pub count-remove_other :
    (k j : String) (ks : List String) → k ≢ j → count j (remove k ks) ≡ count j ks
unfolding count remove
count-remove_other k j [] ne = refl
count-remove_other k j (i ∷ ks) ne =
    ground (arith, eq_iff i k, eq_iff i j, count-remove_other k j ks ne)

pub count-mem : (k : String) (ks : List String) → count k ks ≡ 0 → mem k ks ≡ false
unfolding count mem
count-mem k [] h = refl
count-mem k (j ∷ js) h = ground (arith, count-mem k js)

pub count_runs-append :
    (k : String) (a b : List Run) → count_runs k (a ++ b) ≡ count_runs k a + count_runs k b
unfolding count_runs
count_runs-append k [] b = omega arith
count_runs-append k (x ∷ a) b = ground (arith, count_runs-append k a b)
