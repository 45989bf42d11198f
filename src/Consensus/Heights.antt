-- ===== src/Consensus/Heights.antt =====
-- The height that a synchronization reaches (core/consensus/src/synchronization.rs).
use Prim.Native.Nat.{min}
use mathlib.Core.Path.{subst}
use muta.Prelude.{
  Bool, Bool-cases, ap, arith, false, inl, inr, ltb, ltb→le, ltb→lt, ok, suc, true, zero, ℕ, ◌+◌,
  ◌-◌, ◌<◌, ◌∙◌, ◌≡◌, ◌≤◌,
}
use muta.Consensus.Status.{replace}
use muta.Consensus.Sync.{Peer, Syncing, start_sync, sync_block, sync_blocks, sync_target}
use muta.Consensus.Actions.{Action, after_with, pair-ok, pure, ◌>>◌}
use muta.Consensus.Syncing.{sync_block-IsSynced}

module _ {Tx Receipt : Type 0} (peer : Peer Tx Receipt) where
  -- The loop after its test.
  abbrev turn : ℕ → ℕ → ℕ → ℕ → Bool → Action (Syncing Tx Receipt) (Unit {0})
  turn chunk_size target n current b = elim b [
    | false ↦ pure tt
    | true ↦
        sync_block peer chunk_size (current + 1)
        >> sync_blocks peer chunk_size target n (current + 1)
  ]

  sync_blocks-height :
      (chunk_size target n current : ℕ) (s s' : Syncing Tx Receipt)
      → s.sync_status.latest_committed_height ≡ current
      → s.status.latest_committed_height ≡ current
      → current ≤ target
      → target ≤ current + n
      → sync_blocks peer chunk_size target n current s ≡ (s', ok tt)
      → (s'.sync_status.latest_committed_height ≡ target)
        × (s'.status.latest_committed_height ≡ target)
  unfolding sync_blocks replace
  sync_blocks-height chunk_size target zero current s s' at at' low high h =
      let (same, _) = pair-ok s s' _ _ h in
      let reached : current ≡ target = omega (arith, low, high) in
      (cc (same, at, reached), cc (same, at', reached))
  sync_blocks-height chunk_size target (suc n) current s s' at at' low high h =
      elim (Bool-cases (ltb current target)) [
        | inl e ↦
            after_with s s' tt (sync_block peer chunk_size (current + 1))
              (sync_blocks peer chunk_size target n (current + 1))
              (subst (λ b. turn chunk_size target n current b s ≡ (s', ok tt)) e h)
              (λ s1 _ e1 r1.
                let synced = sync_block-IsSynced peer chunk_size (current + 1) s s1 e1 in
                let up : s1.sync_status.latest_committed_height ≡ current + 1 =
                  omega (arith, synced.committed.next, at) in
                sync_blocks-height chunk_size target n (current + 1) s1 s' up
                  (ap (λ x. x.latest_committed_height) synced.status ∙ up)
                  (omega (arith, ltb→lt current target e)) (omega (arith, high)) r1)
        | inr e ↦
            let (same, _) =
              pair-ok s s' _ _
                (subst (λ b. turn chunk_size target n current b s ≡ (s', ok tt)) e h) in
            let reached : current ≡ target = omega (arith, low, ltb→le current target e) in
            (cc (same, at, reached), cc (same, at', reached))
      ]

  -- A synchronization that succeeds, from two statuses of one height below the remote one, takes both
  -- to the remote height, or fifty blocks further where that is less.
  pub start_sync-height :
      (chunk_size current remote : ℕ) (s s' : Syncing Tx Receipt)
      → s.sync_status.latest_committed_height ≡ current
      → s.status.latest_committed_height ≡ current
      → current < remote
      → start_sync peer chunk_size current remote s ≡ (s', ok tt)
      → (s'.sync_status.latest_committed_height ≡ min remote (current + 50))
        × (s'.status.latest_committed_height ≡ min remote (current + 50))
  unfolding start_sync sync_target
  start_sync-height chunk_size current remote s s' at at' up h =
      let target = sync_target current remote in
      let (low, same) : (current ≤ target) × (target ≡ min remote (current + 50)) =
        ground (arith, up, sync_target current remote) in
      let (a, b) =
        sync_blocks-height chunk_size target (target - current) current s s' at at' low
          (omega arith) h in
      (a ∙ same, b ∙ same)
