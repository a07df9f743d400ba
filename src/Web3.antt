-- ===== src/Web3.antt =====
-- astra/web3: the transaction policy, raw transactions and the transaction manager.
pub mod Policy
pub mod RawTx
pub mod Keystore
pub mod Transactions
