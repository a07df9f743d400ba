-- ===== src/Web3/Transactions/Table.antt =====
-- The table of rows, by key: what `find` sees of each change.
use astra_ai_agent.Prelude.{
  ℕ, suc, ◌+◌, ◌≡◌, ◌≢◌, inl, inr, refl, Bool-cases, Option, none, some, List, [], ◌∷◌, ◌++◌,
  String, str_eq, eq_iff, map, arith, if◌then◌else◌,
}
use astra_ai_agent.Web3.RawTx.{Bytes}
use astra_ai_agent.Web3.Transactions.State.{Tx, find, update}

-- A change that leaves the key of a row alone.
abbrev pub KeepsId : (Tx → Tx) → Type 0
KeepsId f = (r : Tx) → (f r).tx_id ≡ r.tx_id

abbrev pub on_row : (Tx → Tx) → Option Tx → Option Tx
on_row f none = none
on_row f (some r) = some (f r)

pub find-update :
    (k j : String) (f : Tx → Tx)
    → KeepsId f
    → (rows : List Tx)
    → find j (update k f rows) ≡ (if str_eq k j then on_row f (find j rows) else find j rows)
unfolding find update
find-update k j f keeps [] = ground arith
find-update k j f keeps (r ∷ rs) =
    ground
      (arith, keeps r, eq_iff r.tx_id k, eq_iff r.tx_id j, eq_iff k j, find-update k j f keeps rs)

pub find-map :
    (f : Tx → Tx)
    → KeepsId f
    → (j : String) (rows : List Tx) → find j (map f rows) ≡ on_row f (find j rows)
unfolding find
find-map f keeps j [] = refl
find-map f keeps j (r ∷ rs) = ground (arith, keeps r, find-map f keeps j rs)

pub find-insert :
    (j : String) (r : Tx) (rows : List Tx)
    → find j (rows ++ r ∷ [])
      ≡ elim (find j rows) [ some q ↦ some q | none ↦ if str_eq r.tx_id j then some r else none ]
unfolding find
find-insert j r [] = refl
find-insert j r (q ∷ rows) = ground (arith, find-insert j r rows)

pub update-update :
    (k : String) (f g : Tx → Tx)
    → KeepsId f
    → (rows : List Tx) → update k g (update k f rows) ≡ update k (λ r. g (f r)) rows
unfolding update
update-update k f g keeps [] = refl
update-update k f g keeps (r ∷ rs) =
    ground (arith, keeps r, eq_iff r.tx_id k, update-update k f g keeps rs)

-- How often a raw transaction of the row was handed to the network.
unfoldable pub count : String → List (String × Bytes) → ℕ
count k [] = 0
count k ((j, _) ∷ sent) = if str_eq j k then suc (count k sent) else count k sent

pub count-append :
    (k : String) (a b : List (String × Bytes)) → count k (a ++ b) ≡ count k a + count k b
unfolding count
count-append k [] b = omega arith
count-append k (x ∷ a) b = ground (arith, count-append k a b)

-- The row that is found has the key that was looked for.
pub find-id : (k : String) (rows : List Tx) {r : Tx} → find k rows ≡ some r → r.tx_id ≡ k
unfolding find
find-id k [] h = cc
find-id k (q ∷ rows) {r = r} h = elim (Bool-cases (str_eq q.tx_id k)) [
  | inl e ↦ ground (arith, eq_iff q.tx_id k)
  | inr e ↦ find-id k rows {r = r} (ground arith)
]

pub count-one : (k j : String) (raw : Bytes) → j ≢ k → count j ((k, raw) ∷ []) ≡ 0
unfolding count
count-one k j raw ne = ground (arith, eq_iff k j)

pub count-one_self : (k : String) (raw : Bytes) → count k ((k, raw) ∷ []) ≡ 1
unfolding count
count-one_self k raw = ground (arith, eq_iff k k)
