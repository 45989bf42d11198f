-- ===== src/Mempool/Types.antt =====
-- Transactions (protocol/src/types/transaction.rs) and what the pool keeps beside them
-- (core/mempool/src/tx_cache.rs), with the errors of the pool (core/mempool/src/lib.rs).
use muta.Prelude.{Bool, List, Result, String, ℕ}
use muta.Protocol.{Address, Bytes, Hash}

pub record TransactionRequest : Type 0 where
  pub method : String
  pub service_name : String
  pub payload : String

pub record RawTransaction : Type 0 where
  pub chain_id : Hash
  pub cycles_price : ℕ
  pub cycles_limit : ℕ
  pub nonce : Hash
  pub request : TransactionRequest
  pub timeout : ℕ
  pub sender : Address

pub record SignedTransaction : Type 0 where
  pub raw : RawTransaction
  pub tx_hash : Hash
  pub pubkey : Bytes
  pub signature : Bytes

-- `Arc<TxWrapper>`: `proposed` never changes, `removed` does and is shared, so `cell` names it.
pub record SharedTx : Type 0 where
  pub tx : SignedTransaction
  pub removed_cell : ℕ
  pub proposed : Bool

pub data Stage : Type 0 where
  order_txs propose_txs finished : Stage

pub record MixedTxHashes : Type 0 where
  pub order_tx_hashes : List Hash
  pub propose_tx_hashes : List Hash

pub data TxType : Type 0 where
  new_tx propose_tx : TxType

-- The fields stand in the source's order. `outside` is an error of another part of the program,
-- which a `ProtocolError` can hold as well.
pub data MemPoolError : Type 0 where
  exceed_size_limit : Hash → ℕ → ℕ → MemPoolError
  exceed_cycles_limit : Hash → ℕ → ℕ → MemPoolError
  insert_failed : Hash → MemPoolError
  reach_limit : ℕ → MemPoolError
  dup : Hash → MemPoolError
  ensure_break : ℕ → ℕ → MemPoolError
  ensure_dup : Hash → MemPoolError
  mis_match : ℕ → ℕ → MemPoolError
  insert_candidate : ℕ → MemPoolError
  check_authorization_failed : Hash → String → MemPoolError
  check_hash : Hash → Hash → MemPoolError
  committed_tx : Hash → MemPoolError
  wrong_chain : Hash → MemPoolError
  timeout_passed : Hash → ℕ → MemPoolError
  invalid_timeout : Hash → MemPoolError
  verify_batch_transactions : MemPoolError
  encode_json : MemPoolError
  outside : String → MemPoolError

abbrev pub ProtocolResult : Type 0 → Type 0
ProtocolResult A = Result A MemPoolError
