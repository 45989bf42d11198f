-- ===== src/Consensus/Received.antt =====
-- What the announcement of a height leads to (core/consensus/src/synchronization.rs).
use Prim.Native.Nat.{min}
use muta.Prelude.{
  Bool, Bool-cases, ap, arith, false, if_split, if◌then◌else◌, inl, inr, leb, nat_beq, nat_beq_iff,
  ok, refl, suc, sym, true, zero, ℕ, ◌+◌, ◌-◌, ◌<◌, ◌∙◌, ◌≡◌, ◌⊎◌,
}
use muta.Consensus.Status.{CurrentConsensusStatus}
use muta.Consensus.Actions.{after_with, ask_with, chain_with, pair-ok, ◌>>◌}
use muta.Consensus.Sync.{Peer, Syncing, start_sync}
use muta.Consensus.Receive.{
  init_status_agent, need_after_delay, need_sync, receive_remote_block, remote_has, sync_if,
  sync_locked,
}
use muta.Consensus.Heights.{start_sync-height}

module _ {Tx Receipt : Type 0} (peer : Peer Tx Receipt) where
  -- The status after some delays of the execution.
  abbrev executions : ℕ → CurrentConsensusStatus → CurrentConsensusStatus
  executions zero status = status
  executions (suc k) status = executions k (peer.wait_execution status)

  -- If the execution is level with the commits after some delays, the loop ends, with more fuel.
  pub init_status_agent_level :
      (k fuel : ℕ) (s : Syncing Tx Receipt)
      → k < fuel
      → (executions k s.status).exec_height ≡ (executions k s.status).latest_committed_height
      → (s' : Syncing Tx Receipt) × (init_status_agent peer fuel s ≡ (s', ok tt))
  unfolding init_status_agent
  init_status_agent_level k zero s more level = absurd (omega (arith, more))
  init_status_agent_level zero (suc n) s more level = (
    record s { sync_status = s.status },
    rw ((nat_beq_iff s.status.exec_height s.status.latest_committed_height).1 level) refl,
  )
  init_status_agent_level (suc i) (suc n) s more level =
      elim (Bool-cases (nat_beq s.status.exec_height s.status.latest_committed_height)) [
        | inl e ↦ (record s { sync_status = s.status }, rw e refl)
        | inr e ↦
            let (s', found) =
              init_status_agent_level i n (record s { status = peer.wait_execution s.status })
                (omega (arith, more)) level in
            (s', rw e found)
      ]

  record Level (s s' : Syncing Tx Receipt) : Type 0 where
    height : s'.status.latest_committed_height ≡ s.status.latest_committed_height
    same : s'.sync_status ≡ s'.status

  init_status_agent-Level :
      (fuel : ℕ) (s s' : Syncing Tx Receipt)
      → ((status : CurrentConsensusStatus)
          → (peer.wait_execution status).latest_committed_height ≡ status.latest_committed_height)
      → init_status_agent peer fuel s ≡ (s', ok tt)
      → Level s s'
  unfolding init_status_agent
  init_status_agent-Level zero s s' keeps h = absurd (ground (arith, ap (λ r. r.1) h))
  init_status_agent-Level (suc n) s s' keeps h =
      elim (if_split (nat_beq s.status.exec_height s.status.latest_committed_height)
        (record s { sync_status = s.status }, ok tt)
        (init_status_agent peer n (record s { status = peer.wait_execution s.status })) (s', ok tt)
        h) [
          | inl (level, e) ↦
              let (last, _) = pair-ok _ s' _ _ e in
              record {
                height = ap (λ x. x.status.latest_committed_height) (sym last);
                same = ap (λ x. x.sync_status) (sym last) ∙ ap (λ x. x.status) last;
              }
          | inr (behind, e) ↦
              let found =
                init_status_agent-Level n (record s { status = peer.wait_execution s.status }) s'
                  keeps e in
              record { height = found.height ∙ keeps s.status; same = found.same }
        ]

  remote_has-Same :
      (remote : ℕ) (s s' : Syncing Tx Receipt) (b : Bool)
      → remote_has peer remote s ≡ (s', ok b)
      → s ≡ s'
  unfolding remote_has
  remote_has-Same remote s s' b h = ask_with s s' b _ _ h (λ block e r. (pair-ok s s' _ _ r).0)

  need_after_delay-Same :
      (remote : ℕ) (s s' : Syncing Tx Receipt) (b : Bool)
      → need_after_delay peer remote s ≡ (s', ok b)
      → s ≡ s'
  unfolding need_after_delay
  need_after_delay-Same remote s s' b h =
      elim (if_split (nat_beq s.status.latest_committed_height remote) (s, ok false)
        (remote_has peer remote s) (s', ok b) h) [
          | inl (there, e) ↦ (pair-ok s s' _ _ e).0
          | inr (missing, e) ↦ remote_has-Same remote s s' b e
        ]

  -- The status at most waited once.
  abbrev pub Waited : Syncing Tx Receipt → CurrentConsensusStatus → Type 0
  Waited s status = (status ≡ s.status) ⊎ (status ≡ peer.wait s.status)

  need_sync-Waited :
      (remote : ℕ) (s s' : Syncing Tx Receipt) (b : Bool)
      → need_sync peer remote s ≡ (s', ok b)
      → Waited s s'.status
  unfolding need_sync
  need_sync-Waited remote s s' b h =
      let waiting : Syncing Tx Receipt = record s { status = peer.wait s.status } in
      elim (if_split (nat_beq remote 0) (s, ok false)
        (if leb remote s.status.latest_committed_height
          then (s, ok false)
          else if nat_beq s.status.latest_committed_height (remote - 1)
          then need_after_delay peer remote waiting
          else remote_has peer remote s)
        (s', ok b) h) [
          | inl (none_there, e) ↦ inl (ap (λ x. x.status) (sym (pair-ok s s' _ _ e).0))
          | inr (some_there, h1) ↦
              elim (if_split (leb remote s.status.latest_committed_height) (s, ok false)
                (if nat_beq s.status.latest_committed_height (remote - 1)
                  then need_after_delay peer remote waiting
                  else remote_has peer remote s)
                (s', ok b) h1) [
                  | inl (low, e) ↦ inl (ap (λ x. x.status) (sym (pair-ok s s' _ _ e).0))
                  | inr (high, h2) ↦
                      elim (if_split (nat_beq s.status.latest_committed_height (remote - 1))
                        (need_after_delay peer remote waiting) (remote_has peer remote s) (s', ok b)
                        h2) [
                          | inl (next, e) ↦ inr (
                              ap (λ x. x.status)
                                (sym (need_after_delay-Same remote waiting s' b e)))
                          | inr (far, e) ↦
                              inl (ap (λ x. x.status) (sym (remote_has-Same remote s s' b e)))
                        ]
                ]
        ]

  -- Nothing happened, or the status went to the remote height, or fifty blocks on.
  abbrev pub Reached : ℕ → CurrentConsensusStatus → Syncing Tx Receipt → Type 0
  Reached remote before s' =
      (s'.status ≡ before)
      ⊎ ((before.latest_committed_height < remote)
          × (s'.status.latest_committed_height ≡ min remote (before.latest_committed_height + 50)))

  module _
      (keeps : (status : CurrentConsensusStatus)
        → (peer.wait_execution status).latest_committed_height
          ≡ status.latest_committed_height) where
    sync_locked-Reached :
        (fuel chunk_size remote : ℕ) (s s' : Syncing Tx Receipt)
        → sync_locked peer fuel chunk_size remote s ≡ (s', ok tt)
        → Reached remote s.status s'
    unfolding sync_locked
    sync_locked-Reached fuel chunk_size remote s s' h =
        elim (if_split (leb remote s.status.latest_committed_height) (s, ok tt)
          ((init_status_agent peer fuel
              >> start_sync peer chunk_size s.status.latest_committed_height remote)
            s)
          (s', ok tt) h) [
            | inl (low, e) ↦ inl (ap (λ x. x.status) (sym (pair-ok s s' _ _ e).0))
            | inr (high, e) ↦ after_with s s' tt _ _ e (λ s1 _ started r.
                let level = init_status_agent-Level fuel s s1 keeps started in
                inr (
                  ground (arith, high),
                  (start_sync-height peer chunk_size s.status.latest_committed_height remote s1 s'
                      (ap (λ x. x.latest_committed_height) level.same ∙ level.height) level.height
                      (ground (arith, high)) r).1,
                ))
          ]

    sync_if-Reached :
        (fuel chunk_size remote : ℕ) (commit_free need : Bool) (s s' : Syncing Tx Receipt)
        → sync_if peer fuel chunk_size remote commit_free need s ≡ (s', ok tt)
        → Reached remote s.status s'
    unfolding sync_if
    sync_if-Reached fuel chunk_size remote commit_free false s s' h =
        inl (ap (λ x. x.status) (sym (pair-ok s s' _ _ h).0))
    sync_if-Reached fuel chunk_size remote false true s s' h =
        inl (ap (λ x. x.status) (sym (pair-ok s s' _ _ h).0))
    sync_if-Reached fuel chunk_size remote true true s s' h =
        sync_locked-Reached fuel chunk_size remote s s' h

    -- Where the delays of the execution keep the committed height, an announcement that meets no
    -- error, from the status or from the one that a delay made of it, either leaves the status, or
    -- starts below the remote height and takes the status to it, or fifty blocks on where that is
    -- less.
    pub receive_remote_block-Reached :
        (fuel chunk_size remote : ℕ) (syncing_free commit_free : Bool) (s s' : Syncing Tx Receipt)
        → receive_remote_block peer fuel chunk_size syncing_free commit_free remote s ≡ (s', ok tt)
        → (before : CurrentConsensusStatus) × Waited s before × Reached remote before s'
    unfolding receive_remote_block
    receive_remote_block-Reached fuel chunk_size remote false commit_free s s' h =
        (s.status, inl refl, inl (ap (λ x. x.status) (sym (pair-ok s s' _ _ h).0)))
    receive_remote_block-Reached fuel chunk_size remote true commit_free s s' h =
        chain_with s s' tt _ _ h (λ s1 need asked r. (
          s1.status,
          need_sync-Waited remote s s1 need asked,
          sync_if-Reached fuel chunk_size remote commit_free need s1 s' r,
        ))
