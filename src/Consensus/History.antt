-- ===== src/Consensus/History.antt =====
-- A status beside the log of what was executed and of what blocks confirmed
-- (core/consensus/src/status.rs).
use mathlib.Core.Path.{subst}
use muta.Prelude.{
  Bool-cases, List, Option, [], ap, append_assoc, arith, chain_some, guard_some, if◌then◌else◌, inl,
  inr, leb, length, length-append, nat_beq, none, not, refl, some, some_injective, ℕ, ◌++◌, ◌+◌,
  ◌∙◌, ◌∷◌, ◌≡◌,
}
use muta.Consensus.Types.{Block, BlockHeader, Hex, MerkleRoot, Metadata, Proof}
use muta.Consensus.Status.{
  CurrentConsensusStatus, ExecutedInfo, set_metadata, update_by_committed, update_by_executed,
}
use muta.Protocol.{Bytes, Hash}
use muta.Consensus.Splits.{drop-prefix, length-drop, split_off-Splits}

-- The results of executed blocks, in their order.
pub record Log : Type 0 where
  pub confirm_root : List MerkleRoot
  pub receipt_root : List MerkleRoot
  pub cycles_used : List ℕ

abbrev pub append_log : Log → Log → Log
append_log a b = record {
  confirm_root = a.confirm_root ++ b.confirm_root;
  receipt_root = a.receipt_root ++ b.receipt_root;
  cycles_used = a.cycles_used ++ b.cycles_used;
}

-- What the status holds, and what a header confirms.
abbrev pub pending : CurrentConsensusStatus → Log
pending s = record {
  confirm_root = s.list_confirm_root;
  receipt_root = s.list_receipt_root;
  cycles_used = s.list_cycles_used;
}

abbrev pub confirmed_by : BlockHeader → Log
confirmed_by h = record {
  confirm_root = h.confirm_root;
  receipt_root = h.receipt_root;
  cycles_used = h.cycles_used;
}

abbrev result_of : ExecutedInfo → Log
result_of info = record {
  confirm_root = info.confirm_root ∷ [];
  receipt_root = info.receipt_root ∷ [];
  cycles_used = info.cycles_used ∷ [];
}

pub data StatusEvent : Type 0 where
  executed : ExecutedInfo → StatusEvent
  committed : Metadata → Block → Hash → Proof → StatusEvent

-- A status beside all that was executed and all that was confirmed.
pub record Traced : Type 0 where
  pub status : CurrentConsensusStatus
  pub executed_log : Log
  pub confirmed_log : Log

-- A result that arrives again is not executed again.
abbrev executed_in : ExecutedInfo → Traced → Log
executed_in info t =
    if leb info.exec_height t.status.exec_height
    then t.executed_log
    else append_log t.executed_log (result_of info)

pub record IsTraced (t : Traced) : Type 0 where
  pub log : t.executed_log ≡ append_log t.confirmed_log (pending t.status)
  pub receipt_length : length t.status.list_receipt_root ≡ length t.status.list_confirm_root
  pub cycles_length : length t.status.list_cycles_used ≡ length t.status.list_confirm_root
  pub state_length : length t.status.list_state_root ≡ length t.status.list_confirm_root

module _ (decode : Hex → Bytes) where
  -- One event, with what it adds to the two logs.
  abbrev pub trace_step : StatusEvent → Traced → Option Traced
  trace_step (executed info) t = elim (update_by_executed info t.status) [
    | none ↦ none
    | some s ↦
        some (record {
          status = s;
          executed_log = executed_in info t;
          confirmed_log = t.confirmed_log;
        })
  ]
  trace_step (committed metadata block block_hash proof) t =
      elim (update_by_committed decode metadata block block_hash proof t.status) [
        | none ↦ none
        | some s ↦ some (record {
          status = s;
          executed_log = t.executed_log;
          confirmed_log = append_log t.confirmed_log (confirmed_by block.header);
        })
      ]

  unfoldable pub trace : List StatusEvent → Traced → Option Traced
  trace [] t = some t
  trace (k ∷ ks) t = elim (trace_step k t) [ none ↦ none | some t' ↦ trace ks t' ]

  -- A status with one more result.
  abbrev pushed : ExecutedInfo → CurrentConsensusStatus → CurrentConsensusStatus
  pushed info s = record s {
    exec_height = s.exec_height + 1;
    list_cycles_used = s.list_cycles_used ++ (info.cycles_used ∷ []);
    list_confirm_root = s.list_confirm_root ++ (info.confirm_root ∷ []);
    list_receipt_root = s.list_receipt_root ++ (info.receipt_root ∷ []);
    list_state_root = s.list_state_root ++ (info.state_root ∷ []);
  }

  append_log_assoc : (a b c : Log) → append_log (append_log a b) c ≡ append_log a (append_log b c)
  append_log_assoc a b c = cc (
    append_assoc a.confirm_root b.confirm_root c.confirm_root,
    append_assoc a.receipt_root b.receipt_root c.receipt_root,
    append_assoc a.cycles_used b.cycles_used c.cycles_used,
  )

  executed-IsTraced :
      (info : ExecutedInfo) (t : Traced) (s : CurrentConsensusStatus)
      → IsTraced t
      → update_by_executed info t.status ≡ some s
      → IsTraced (record {
        status = s;
        executed_log = executed_in info t;
        confirmed_log = t.confirmed_log;
      })
  unfolding update_by_executed
  executed-IsTraced info t s v h = elim (Bool-cases (leb info.exec_height t.status.exec_height)) [
    | inl again ↦
        let same : t.status ≡ s = ground (arith, again, h) in
        subst
          (λ x. IsTraced (record {
            status = x;
            executed_log = executed_in info t;
            confirmed_log = t.confirmed_log;
          }))
          same (rw again v)
    | inr new ↦
        let same : pushed info t.status ≡ s = ground (arith, new, h) in
        subst
          (λ x. IsTraced (record {
            status = x;
            executed_log = executed_in info t;
            confirmed_log = t.confirmed_log;
          }))
          same
          (rw new (record {
            log =
                ap (λ l. append_log l (result_of info)) v.log
                ∙ append_log_assoc t.confirmed_log (pending t.status) (result_of info);
            receipt_length = omega (
              arith,
              v.receipt_length,
              length-append t.status.list_receipt_root (info.receipt_root ∷ []),
              length-append t.status.list_confirm_root (info.confirm_root ∷ []),
            );
            cycles_length = omega (
              arith,
              v.cycles_length,
              length-append t.status.list_cycles_used (info.cycles_used ∷ []),
              length-append t.status.list_confirm_root (info.confirm_root ∷ []),
            );
            state_length = omega (
              arith,
              v.state_length,
              length-append t.status.list_state_root (info.state_root ∷ []),
              length-append t.status.list_confirm_root (info.confirm_root ∷ []),
            );
          }))
  ]

  committed-IsTraced :
      (metadata : Metadata) (block : Block) (block_hash : Hash) (proof : Proof) (t : Traced)
      (s : CurrentConsensusStatus)
      → IsTraced t
      → update_by_committed decode metadata block block_hash proof t.status ≡ some s
      → IsTraced (record {
        status = s;
        executed_log = t.executed_log;
        confirmed_log = append_log t.confirmed_log (confirmed_by block.header);
      })
  unfolding update_by_committed set_metadata
  committed-IsTraced metadata block block_hash proof t s v h =
      let (height, rest) =
        guard_some (not (nat_beq block.header.height (t.status.latest_committed_height + 1))) _ s
          h in
      let split = split_off-Splits block _ s rest in
      let n = length block.header.confirm_root in
      let confirm = drop-prefix _ _ t.confirmed_log.confirm_root n refl split.confirm_checked in
      let receipt =
        drop-prefix _ _ t.confirmed_log.receipt_root n split.receipt_length split.receipt_checked in
      let cycles =
        drop-prefix _ _ t.confirmed_log.cycles_used n split.cycles_length split.cycles_checked in
      let confirms = length-drop n t.status.list_confirm_root in
      subst
        (λ x. IsTraced (record {
          status = x;
          executed_log = t.executed_log;
          confirmed_log = append_log t.confirmed_log (confirmed_by block.header);
        }))
        split.after
        (record {
          log = v.log ∙ cc (confirm, receipt, cycles);
          receipt_length =
              omega (arith, v.receipt_length, confirms, length-drop n t.status.list_receipt_root);
          cycles_length =
              omega (arith, v.cycles_length, confirms, length-drop n t.status.list_cycles_used);
          state_length =
              omega (arith, v.state_length, confirms, length-drop n t.status.list_state_root);
        })

  trace_step-IsTraced :
      (k : StatusEvent) (t t' : Traced) → IsTraced t → trace_step k t ≡ some t' → IsTraced t'
  trace_step-IsTraced (executed info) t t' v h =
      let (s, e, same) = chain_some (update_by_executed info t.status) _ t' h in
      subst IsTraced (some_injective _ t' same) (executed-IsTraced info t s v e)
  trace_step-IsTraced (committed metadata block block_hash proof) t t' v h =
      let (s, e, same) =
        chain_some (update_by_committed decode metadata block block_hash proof t.status) _ t' h in
      subst IsTraced (some_injective _ t' same)
        (committed-IsTraced metadata block block_hash proof t s v e)

  -- From a status that agrees with the two logs, any sequence of executed results and committed
  -- blocks that meets no panic leads to one that agrees with them: what was executed is what blocks
  -- confirmed and then what the status holds, and its four lists have one length.
  pub trace-IsTraced :
      (ks : List StatusEvent) (t t' : Traced) → IsTraced t → trace ks t ≡ some t' → IsTraced t'
  unfolding trace
  trace-IsTraced [] t t' v h = subst IsTraced (some_injective t t' h) v
  trace-IsTraced (k ∷ ks) t t' v h =
      let (u, e, rest) = chain_some (trace_step k t) (λ x. trace ks x) t' h in
      trace-IsTraced ks u t' (trace_step-IsTraced k t u v e) rest
