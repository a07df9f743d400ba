-- ===== src/Web3/Transactions.antt =====
-- astra/web3/transactions.py: the transaction manager. `State` is its data and the rows that it
-- keeps in the database; `Network` is what it calls outside itself; `Lifecycle`, `Sending` and
-- `Recovery` hold its methods.
pub mod State
pub mod Network
pub mod Lifecycle
pub mod Sending
pub mod Recovery
pub mod Table
pub mod Invariant
pub mod Moves
pub mod Sends
pub mod Sound
pub mod Traces
pub mod Creation
pub mod Stop
pub mod Race
pub mod Stuck
pub mod Lost
mod Tests
