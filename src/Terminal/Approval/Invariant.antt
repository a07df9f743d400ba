-- ===== src/Terminal/Approval/Invariant.antt =====
-- What holds of every request between two steps, and what keeps it.
use astra_ai_agent.Prelude.{
  ℕ, ◌+◌, ◌≤◌, ◌≡◌, refl, Bool, true, false, Option, none, some, String, str_eq, eq_iff, arith,
  if◌then◌else◌,
}
use astra_ai_agent.Terminal.Approval.{
  Status, pending, denied, expired, cancelled, ApprovalRequest, Manager, find, update, lookup,
}
use astra_ai_agent.Terminal.Approval.Table.{KeepsId, on_row, find-update, count, count_runs}

-- Nothing may have run for a request in such a status.
abbrev pub is_unrun : Status → Bool
is_unrun pending = true
is_unrun denied = true
is_unrun expired = true
is_unrun cancelled = true
is_unrun _ = false

-- A request, with the threads that may execute it, that are executing it, and its executions.
abbrev pub IsFine : Option ApprovalRequest → ℕ → ℕ → ℕ → Type 0
IsFine none c u n = (c ≡ 0) × (u ≡ 0) × (n ≡ 0)
IsFine (some r) c u n = (c + n ≤ 1) × (u ≤ n) × (is_unrun r.status ≡ true → c + n ≡ 0)

abbrev pub FineAt : String → Manager → Type 0
FineAt k m = IsFine (find k m.heap) (count k m.claimed) (count k m.running) (count_runs k m.runs)

pub record IsSound (m : Manager) : Type 0 where
  pub at : (k : String) → FineAt k m

IsFine-change :
    (b : Bool) (f : ApprovalRequest → ApprovalRequest) (o : Option ApprovalRequest) (c u n : ℕ)
    → ((r : ApprovalRequest)
        → b ≡ true
        → o ≡ some r
        → is_unrun (f r).status ≡ true
        → is_unrun r.status ≡ true)
    → IsFine o c u n
    → IsFine (if b then on_row f o else o) c u n
IsFine-change true f none c u n mono h = h
IsFine-change true f (some r) c u n mono h = (h.0, h.1, λ e. h.2 (mono r refl refl e))
IsFine-change false f o c u n mono h = h

-- A change of one object that starts no thread and takes no execution back.
module _ (k : String) (f : ApprovalRequest → ApprovalRequest) (m m' : Manager) where
  pub change-IsSound :
      KeepsId f
      → m'.heap ≡ update k f m.heap
      → m'.claimed ≡ m.claimed
      → m'.running ≡ m.running
      → m'.runs ≡ m.runs
      → ((r : ApprovalRequest)
          → find k m.heap ≡ some r
          → is_unrun (f r).status ≡ true
          → is_unrun r.status ≡ true)
      → IsSound m
      → IsSound m'
  change-IsSound keeps heap cl ru runs mono h = record {
    at = λ j.
        rw (heap, cl, ru, runs, find-update k j f keeps m.heap)
          (IsFine-change (str_eq k j) f (find j m.heap) _ _ _
            (λ r b e. mono r (let same = (eq_iff k j).0 b in cc)) (h.at j));
  }

pub same-IsSound :
    (m m' : Manager)
    → m'.heap ≡ m.heap
    → m'.claimed ≡ m.claimed
    → m'.running ≡ m.running
    → m'.runs ≡ m.runs
    → IsSound m
    → IsSound m'
same-IsSound m m' heap cl ru runs h = record { at = λ k. rw (heap, cl, ru, runs) (h.at k) }

-- What `lookup` finds is what stands on the heap.
pub lookup-find :
    (k : String) (m : Manager) {r : ApprovalRequest} → lookup k m ≡ some r → find k m.heap ≡ some r
unfolding lookup
lookup-find k m h = ground arith

-- Threads went on, and the request is not refused.
IsFine-leave :
    (b : Bool) (f : ApprovalRequest → ApprovalRequest) (o : Option ApprovalRequest)
    (c c' u u' n : ℕ)
    → c' ≤ c
    → u' ≤ u
    → ((q : ApprovalRequest) → is_unrun (f q).status ≡ false)
    → IsFine o c u n
    → IsFine (if b then on_row f o else o) c' u' n
IsFine-leave true f none c c' u u' n le le' runs h = (omega arith, omega arith, h.2)
IsFine-leave true f (some q) c c' u u' n le le' runs h =
    (omega arith, omega arith, λ e. cc (e, runs q))
IsFine-leave false f none c c' u u' n le le' runs h = (omega arith, omega arith, h.2)
IsFine-leave false f (some q) c c' u u' n le le' runs h =
    (omega arith, omega arith, λ e. let z = h.2 e in omega arith)

module _ (k : String) (f : ApprovalRequest → ApprovalRequest) (m m' : Manager) where
  pub leave-IsSound :
      KeepsId f
      → m'.heap ≡ update k f m.heap
      → ((j : String) → count j m'.claimed ≤ count j m.claimed)
      → ((j : String) → count j m'.running ≤ count j m.running)
      → m'.runs ≡ m.runs
      → ((q : ApprovalRequest) → is_unrun (f q).status ≡ false)
      → IsSound m
      → IsSound m'
  leave-IsSound keeps heap cl ru runs st h = record {
    at = λ j.
        rw (heap, runs, find-update k j f keeps m.heap)
          (IsFine-leave (str_eq k j) f (find j m.heap) _ _ _ _ _ (cl j) (ru j) st (h.at j));
  }
