-- ===== src/Web3/Transactions/State.antt =====
-- The rows of `web3_transactions`, the manager's state, and its error-passing monad.
use astra_ai_agent.Prelude.{
  Bool, Option, none, some, List, [], ◌∷◌, ◌++◌, String, str_eq, if◌then◌else◌,
}
use astra_ai_agent.Prelude.Int.{ℤ}
use astra_ai_agent.Prelude.Text.{Text}
use astra_ai_agent.Web3.Policy.{PolicyConfig, Verdict}
use astra_ai_agent.Web3.RawTx.{Bytes}

-- `_LIFECYCLE`
pub data Status : Type 0 where
  created prepared validated authorized signed broadcast confirmed failed rejected cancelled :
      Status

-- A time, `%Y-%m-%d %H:%M:%S`: its first ten characters, and the rest.
pub record Stamp : Type 0 where
  pub day : String
  pub clock : String

-- A row. Its `id` and its `tx_id` determine one another, so `tx_id` is the key of every update.
-- `signed_raw_wrapped` and `submitted_hash` are `none` where the column is empty.
pub record Tx : Type 0 where
  pub tx_id : String
  pub status : Status
  pub chain_id : ℤ
  pub from_address : Text
  pub to_address : Text
  pub value_wei : ℤ
  pub data_hex : Text
  pub gas_limit : ℤ
  pub max_fee_per_gas : ℤ
  pub max_priority_fee_per_gas : ℤ
  pub nonce : Option ℤ
  pub signed_raw_wrapped : Option String
  pub submitted_hash : Option String
  pub error : String
  pub kind : String
  pub authorized_by : String
  pub requires_approval : Bool
  pub created_at : Stamp
  pub updated_at : Stamp
  pub broadcast_at : Option Stamp

-- The events that the manager emits.
pub data Event : Type 0 where
  tx_prepared : String → Verdict → Event
  tx_submitted : String → ℤ → Event
  tx_broadcast : String → String → Event
  tx_rejected : String → String → Event
  emergency_stopped emergency_resumed : Event

-- `sent` records every raw transaction that was handed to the network, and for which row.
pub record Manager : Type 0 where
  pub rows : List Tx
  pub cfg : PolicyConfig
  pub stopped : Bool
  pub paused : Bool
  pub events : List Event
  pub sent : List (String × Bytes)

-- The exceptions, by class. `unavailable` is an AstraError of the RPC layer, `bad_value` a
-- ValueError, `keystore_error` a KeystoreError, `duplicate` sqlite's IntegrityError.
pub data Error : Type 0 where
  policy_error rejected_error failed_error unavailable bad_value keystore_error duplicate : Error

pub data Result (A : Type 0) : Type 0 where
  ok : A → Result A
  err : Error → Result A

-- What was written before an exception stays written: the state comes back beside the error.
abbrev pub Method : Type 0 → Type 0
Method A = Manager → Result A × Manager

abbrev pub continue_with : {A B : Type 0} → Result A → (A → Method B) → Method B
continue_with (ok a) f m = f a m
continue_with (err e) f m = (err e, m)

infixl 5 ◌>>=◌ ◌>>◌
abbrev pub ◌>>=◌ : {A B : Type 0} → Method A → (A → Method B) → Method B
◌>>=◌ act f m = continue_with (act m).0 f (act m).1

abbrev pub ◌>>◌ : {A B : Type 0} → Method A → Method B → Method B
act >> rest = act >>= λ _. rest

abbrev pub pure : {A : Type 0} → A → Method A
pure a m = (ok a, m)

abbrev pub raise : {A : Type 0} → Error → Method A
raise e m = (err e, m)

abbrev pub lift : {A : Type 0} → Result A → Method A
lift r m = (r, m)

abbrev pub gets : {A : Type 0} → (Manager → A) → Method A
gets f m = (ok (f m), m)

abbrev pub modify : (Manager → Manager) → Method Unit
modify f m = (ok tt, f m)

abbrev pub raise_if : Bool → Error → Method Unit
raise_if b e m = (if b then err e else ok tt, m)

-- `self._row(tx_id)`
unfoldable pub find : String → List Tx → Option Tx
find k [] = none
find k (r ∷ rs) = if str_eq r.tx_id k then some r else find k rs

-- `UPDATE web3_transactions SET ... WHERE tx_id = ?`
unfoldable pub update : String → (Tx → Tx) → List Tx → List Tx
update k f [] = []
update k f (r ∷ rs) = (if str_eq r.tx_id k then f r else r) ∷ update k f rs

-- An update of the manager's own row, an emitted event.
abbrev pub set_row : String → (Tx → Tx) → Method Unit
set_row k f = modify (λ m. record m { rows = update k f m.rows })

abbrev pub emit : Event → Method Unit
emit e = modify (λ m. record m { events = m.events ++ e ∷ [] })
