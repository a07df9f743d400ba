-- ===== src/Lib.antt =====
-- Astra AI Agent: the parts of the program whose mistakes cost money, run what nobody
-- approved, or lose work.
--
-- Web3, the signing pipeline of astra/web3. A send is checked by the policy (policy.py), becomes a row
-- of the transaction manager (transactions.py), and, once it is cleared, is encoded, signed and handed
-- to the network (raw_tx.py).
--   * Web3/Policy.antt is astra/web3/policy.py: `evaluate` with its guards in the order of the code,
--     `set_mode`, `normalize_mode`. An address or a mode is the list of its code points. Policy/Gate
--     states the policy as a conjunction (`WithinPolicy`), which knows no order of guards.
--   * Web3/RawTx.antt is astra/web3/raw_tx.py: `_rlp_item`, `_prefix`, the lists of fields, the signed
--     serializations. RawTx/Decode is a decoder written from the format of RLP, the specification.
--   * Web3/Transactions/State, Lifecycle, Sending and Recovery are the methods of `TransactionManager`
--     in astra/web3/transactions.py. The database table is a list of rows, and an exception is an error
--     value that keeps what was written before it. Network holds the failover loops of raw_tx.py, the
--     table of chains.py and `_sign_rec`. Traces runs the methods in any order; Lost follows a row whose
--     broadcast failed, and Stuck a poll.
--   * Web3/Keystore.antt is astra/web3/keystore.py: sealing, the records, and the rotation of the master
--     key. Keystore/Sealing names what is assumed of the hashes and of UTF-8 (`Laws`).
--
-- Terminal, the approval of host commands. Terminal/Approval.antt is astra/terminal/approval.py: the
-- requests and what the manager keeps of them; Approval/Deciding is `decide`, `cancel` and `_execute`,
-- once as the steps of several threads and once with nothing in between. Invariant, Moves and Runs
-- hold what every step keeps, Refused what a refused request keeps.
--
-- Ai, the size of a prompt. Ai/ContextBudget.antt is astra/ai/context_budget.py: `fit_messages` with
-- the sets of indices as a split of the list into leading system messages, middle and last message.
--
-- Core, the services below the others.
--   * Core/Permissions.antt is `Policy.decision` of astra/core/permissions.py, the gate of a tool call.
--   * Core/Blobs.antt is astra/core/blob_store.py: the rows of the database, and the texts in memory for
--     the time when it fails. Blobs/Refines compares the rows with a map, Blobs/Reading follows
--     `next_offset`, and Blobs/Bounded is about the eviction.
--   * Core/Tasks.antt is astra/core/tasks.py: creation, readiness, claiming, and `execute` with its
--     retries, whose callable acts on a world of its own. Tasks/Subtree is `subtree` and
--     `cancel_subtree`; its fuel is one round more than the root and each task once, which is enough
--     since no task is on the frontier twice when identifiers are distinct.
--
-- Tools, what agents and workflows call. Tools/Schemas.antt is astra/tools/schemas.py, and
-- Tools/Registry.antt is astra/tools/registry.py: `execute` with its gates in their order (the agent
-- guard, Core/Permissions, the schema, the slots of the rate limit) and its attempts. A tool is a
-- function on a world, and the theorems on the gates say when that world is touched.
--
-- Workflows, astra/workflows/engine.py.
--   * Workflows/Steps.antt is `normalize_steps` on JSON values (Prelude/Json.antt), with an error for
--     each refusal; Steps/Sound says what an accepted list of steps has.
--   * Workflows/Graph.antt is `check_cycles` and `_topo`, on the identifiers of the steps alone.
--     Graph/Sets has the pigeonhole principle, Graph/Order and Graph/Emitted are about the rounds of
--     `_topo`, Graph/Walk about the search, and Graph/Acyclic compares the two.
--   * Workflows/Names.antt and Names/Free are the names that are made up.
--   * Workflows/Definitions.antt and Definitions/Updates are the table of definitions, and
--     Definitions/Calls its calls in any order.
--   * Workflows/Resolve, Runs, Outcome and Execution are `run`: the placeholders, the table of runs, what
--     a step leaves, and the loop. What other threads do to the row of the run before each look at its
--     status is an argument, a list of changes (`Outside`). Execution/Finish and Completed say what the row of the run tells.
--
-- Outside the model. The signer, keccak, the endpoints, the executor of host commands and, for the
-- transaction manager, the key store are parameters (`Vault`, `Rpc`) of which nothing is assumed. The
-- hashes of the key store are a parameter too (`Crypto`). The execution of a tool and Python's
-- `str` of a value are parameters of a workflow's run, and the time between two slots is one of the
-- registry. A method that holds the manager's lock is one step; `emergency_stop` and `confirm` hold
-- none, which Race is about. The clock is an argument. Texts that are cut to 200 characters are
-- arguments in the form in which they are stored. Left out of what Python does: its limit on the depth
-- of a recursion (the search for cycles), the encoding of lone surrogates, which raises (the key store),
-- an endpoint that answers a broadcast with the empty text, the white space and the letters outside
-- ASCII in `strip` and `lower`, and results of a tool that JSON cannot hold (the end of a run).
--
-- Not modelled: the language model side (routing, adapters, chat pipeline, agents), the terminal and
-- runtime processes, the browser, and the web front end, which are input and output above all; the
-- signer's arithmetic; the schedules and the health of providers.
--
-- Fuel. `be_digits` has the number itself as fuel, which is enough since each round divides it by 256.
-- `xor_blocks` has the length of the text, since each round takes a byte at least. The decoder has the
-- depth `need` of the value. `visit` has one more round than there are steps, since the path has
-- no step twice, and `_topo` as many, since each round but the last emits a step. `first_free` tries one
-- more name than are taken. `substitute` has the length of the text, since each round takes a
-- character, and `attempt_task` the retries that are left, and one. `poll` consumes one observation a
-- round: `none` is a loop that is still running when the observations end.
pub mod Prelude
pub mod Web3
pub mod Terminal
pub mod Ai
pub mod Core
pub mod Tools
pub mod Workflows
