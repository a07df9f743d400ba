-- ===== src/Terminal/Approval.antt =====
-- astra/terminal/approval.py: the approvals of host commands. A request is an object that outlives
-- its entry in the manager's dictionary, so `heap` holds every request that was made and `records`
-- the keys of the dictionary. `decide` releases the lock between its claim and the execution, so
-- these are separate steps; `claimed` and `running` are the threads in between. Texts are lists of
-- code points and times whole seconds. The executor is a parameter, and so are the fresh ids.
pub mod Deciding
pub mod Table
pub mod Invariant
pub mod Moves
pub mod Runs
pub mod Once
pub mod Refused
pub mod Final
pub mod Repeat
pub mod Prune
mod Tests
use astra_ai_agent.Prelude.{
  ℕ, zero, suc, ◌+◌, Bool, true, false, not, ◌&&◌, ◌||◌, Option, none, some, List, [], ◌∷◌, ◌++◌,
  String, str_eq, ltb, length, if◌then◌else◌,
}
use astra_ai_agent.Prelude.Int.{ℤ, truthy_ℤ}
use astra_ai_agent.Prelude.Text.{Text, codes, text_eq, text_mem, strip, lower}

-- The statuses of `STATUS_PENDING` and so on.
pub data Status : Type 0 where
  pending approved denied expired cancelled completed failed : Status

-- What the executor returns.
pub record Outcome : Type 0 where
  pub process_id : String
  pub execution_id : String
  pub status : Text
  pub exit_code : Option ℤ
  pub stderr : Text

pub record ApprovalRequest : Type 0 where
  pub approval_id : String
  pub conversation_id : Option ℕ
  pub request_id : String
  pub trace_id : String
  pub op_id : String
  pub command : Text
  pub cwd : Text
  pub reason : Text
  pub session_id : String
  pub runtime_id : String
  pub created_at : ℕ
  pub expires_at : ℕ
  pub status : Status
  pub decided_by : String
  pub resolved_at : ℕ
  pub executed : Bool
  pub execution_id : String
  pub result : Option Outcome
  pub error : Text
  pub message_id : Option ℕ

pub data Event : Type 0 where
  requested lapsed refused allowed started done broken : String → Event

-- A command that was handed to the executor.
pub record Run : Type 0 where
  pub approval_id : String
  pub command : Text
  pub cwd : Text

pub record Manager : Type 0 where
  pub heap : List ApprovalRequest
  pub records : List String
  pub order : List String
  pub max_records : ℕ
  pub ttl_s : ℕ
  pub has_writer : Bool
  pub events : List Event
  pub cards : List (ℕ × Status)
  pub claimed : List String
  pub running : List String
  pub runs : List Run

unfoldable pub mem : String → List String → Bool
mem k [] = false
mem k (j ∷ js) = str_eq j k || mem k js

-- A key that is popped, a thread that has gone on.
unfoldable pub remove : String → List String → List String
remove k [] = []
remove k (j ∷ js) = if str_eq j k then js else j ∷ remove k js

unfoldable pub find : String → List ApprovalRequest → Option ApprovalRequest
find k [] = none
find k (r ∷ rs) = if str_eq r.approval_id k then some r else find k rs

-- An assignment to attributes of one object.
unfoldable pub update :
    String → (ApprovalRequest → ApprovalRequest) → List ApprovalRequest → List ApprovalRequest
update k f [] = []
update k f (r ∷ rs) = (if str_eq r.approval_id k then f r else r) ∷ update k f rs

-- `self._records.get(approval_id)`
unfoldable pub lookup : String → Manager → Option ApprovalRequest
lookup k m = if mem k m.records then find k m.heap else none

abbrev pub is_pending : Status → Bool
is_pending pending = true
is_pending _ = false

-- The properties `expired` and `pending` of a request.
abbrev pub is_expired : ℕ → ApprovalRequest → Bool
is_expired now r = is_pending r.status && ltb r.expires_at now

abbrev pub is_open : ℕ → ApprovalRequest → Bool
is_open now r = is_pending r.status && not (is_expired now r)

abbrev pub set : String → (ApprovalRequest → ApprovalRequest) → Manager → Manager
set k f m = record m { heap = update k f m.heap }

abbrev pub emit : Event → Manager → Manager
emit e m = record m { events = m.events ++ e ∷ [] }

-- `_write_back`
abbrev pub card_of : Option ApprovalRequest → List (ℕ × Status)
card_of none = []
card_of (some r) = elim r.message_id [ none ↦ [] | some i ↦ (i, r.status) ∷ [] ]

abbrev pub write_back : String → Manager → Manager
write_back k m = record m {
  cards = if m.has_writer then m.cards ++ card_of (find k m.heap) else m.cards;
}

-- `_expire_locked`
abbrev pub expire : String → ℕ → Manager → Manager
expire k now m =
    write_back k (emit (lapsed k) (set k (λ r. record r { status = expired; resolved_at = now }) m))

abbrev pub expire_found : String → ℕ → Option ApprovalRequest → Manager → Manager
expire_found k now none m = m
expire_found k now (some r) m = if is_expired now r then expire k now m else m

-- `get`
unfoldable pub get : String → ℕ → Manager → Manager
get k now m = expire_found k now (lookup k m) m

-- `_expire_all_locked`, which `pending` and `all` begin with.
unfoldable pub expire_all : List String → ℕ → Manager → Manager
unfolding get
expire_all [] now m = m
expire_all (k ∷ ks) now m = expire_all ks now (get k now m)

-- Whether the request behind a key is still waiting for the user.
abbrev pub waits : ℕ → Manager → String → Bool
waits now m k = elim (lookup k m) [ none ↦ false | some r ↦ is_open now r ]

-- `_prune_locked`: the new order, and the keys that are dropped.
unfoldable pub prune_order : ℕ → (String → Bool) → List String → List String × List String
prune_order limit waiting [] = ([], [])
prune_order limit waiting (k ∷ ks) =
    let rest = prune_order limit waiting ks in
    if ltb limit (length (k ∷ ks))
    then (if waiting k then (ks ++ k ∷ [], []) else (rest.0, k ∷ rest.1))
    else (k ∷ ks, [])

unfoldable pub remove_all : List String → List String → List String
remove_all [] ks = ks
remove_all (k ∷ drop) ks = remove_all drop (remove k ks)

unfoldable pub prune : ℕ → Manager → Manager
prune now m =
    let (order, dropped) = prune_order m.max_records (waits now m) m.order in
    record m { order = order; records = remove_all dropped m.records }

-- The keyword arguments of `request`.
pub record NewRequest : Type 0 where
  pub command : Text
  pub cwd : Text
  pub reason : Text
  pub conversation_id : Option ℕ
  pub request_id : String
  pub trace_id : String
  pub op_id : String
  pub session_id : String
  pub runtime_id : String

abbrev pub at_least_one : ℕ → ℕ
at_least_one zero = 1
at_least_one (suc n) = suc n

-- `None if conversation_id in (None, "", 0)`
abbrev pub known : Option ℕ → Option ℕ
known (some (suc n)) = some (suc n)
known _ = none

-- `ApprovalRequest.__init__`
abbrev pub new_request : NewRequest → String → ℕ → ℕ → ApprovalRequest
new_request q k ttl now = record {
  approval_id = k;
  conversation_id = known q.conversation_id;
  request_id = q.request_id;
  trace_id = if str_eq q.trace_id "" then q.request_id else q.trace_id;
  op_id = q.op_id;
  command = strip q.command;
  cwd = strip q.cwd;
  reason = strip q.reason;
  session_id = q.session_id;
  runtime_id = q.runtime_id;
  created_at = now;
  expires_at = now + at_least_one ttl;
  status = pending;
  decided_by = "";
  resolved_at = 0;
  executed = false;
  execution_id = "";
  result = none;
  error = [];
  message_id = none;
}

abbrev pub add_request : NewRequest → String → ℕ → Manager → Manager
add_request q k now m =
    let p = prune now m in
    emit (requested k) (record p {
      heap = p.heap ++ new_request q k p.ttl_s now ∷ [];
      records = p.records ++ k ∷ [];
      order = p.order ++ k ∷ [];
    })

-- `request`; `none` is the ValueError of an empty command.
abbrev pub request_of : NewRequest → String → ℕ → Text → Manager → Option Manager
request_of q k now [] m = none
request_of q k now (_ ∷ _) m = some (add_request q k now m)

unfoldable pub request : NewRequest → String → ℕ → Manager → Option Manager
unfolding prune
request q k now m = request_of q k now (strip q.command) m

-- `attach_message`, with a message id that is a number.
unfoldable pub attach_message : String → ℕ → Manager → Manager
attach_message k i m =
    if mem k m.records then set k (λ r. record r { message_id = some i }) m else m
