-- ===== src/Consensus/Receive.antt =====
-- A height that another node announces, and whether it starts a synchronization
-- (core/consensus/src/synchronization.rs). Whether the two locks are free is given: nothing is done
-- where one is taken.
use muta.Prelude.{Bool, err, false, if◌then◌else◌, leb, nat_beq, not, ok, suc, zero, ℕ, ◌-◌}
use muta.Consensus.Types.{outside}
use muta.Consensus.Actions.{Action, ask, pure, ◌>>=◌, ◌>>◌}
use muta.Consensus.Sync.{Peer, Syncing, start_sync}

module _ {Tx Receipt : Type 0} (peer : Peer Tx Receipt) where
  abbrev State : Type 0
  State = Syncing Tx Receipt

  -- The block of the announced height is asked for.
  unfoldable pub remote_has : ℕ → Action State Bool
  remote_has remote_height = do
    block ← ask (λ s. peer.get_block_from_remote s.effects remote_height)
    pure (nat_beq block.header.height remote_height)

  -- The next height may be under way: it is waited for, and not synchronized if it is there then.
  unfoldable pub need_after_delay : ℕ → Action State Bool
  need_after_delay remote_height s =
      if nat_beq s.status.latest_committed_height remote_height
      then (s, ok false)
      else remote_has remote_height s

  unfoldable pub need_sync : ℕ → Action State Bool
  need_sync remote_height s =
      if nat_beq remote_height 0
      then (s, ok false)
      else if leb remote_height s.status.latest_committed_height
      then (s, ok false)
      else if nat_beq s.status.latest_committed_height (remote_height - 1)
      then need_after_delay remote_height (record s { status = peer.wait s.status })
      else remote_has remote_height s

  -- The synchronization starts from the status, once all that was committed is executed. The loop
  -- waits without end; the fuel is a bound on the delays.
  unfoldable pub init_status_agent : ℕ → Action State (Unit {0})
  init_status_agent zero s = (s, err (outside "no more delays"))
  init_status_agent (suc n) s =
      let later = init_status_agent n (record s { status = peer.wait_execution s.status }) in
      if nat_beq s.status.exec_height s.status.latest_committed_height
      then (record s { sync_status = s.status }, ok tt)
      else later

  -- With the commit locked.
  unfoldable pub sync_locked : ℕ → ℕ → ℕ → Action State (Unit {0})
  sync_locked fuel chunk_size remote_height s =
      if leb remote_height s.status.latest_committed_height
      then (s, ok tt)
      else (init_status_agent fuel
            >> start_sync peer chunk_size s.status.latest_committed_height remote_height)
          s

  unfoldable pub sync_if : ℕ → ℕ → ℕ → Bool → Bool → Action State (Unit {0})
  sync_if fuel chunk_size remote_height commit_free need s =
      if not need
      then (s, ok tt)
      else if not commit_free
      then (s, ok tt)
      else sync_locked fuel chunk_size remote_height s

  unfoldable pub receive_remote_block : ℕ → ℕ → Bool → Bool → ℕ → Action State (Unit {0})
  receive_remote_block fuel chunk_size syncing_free commit_free remote_height s =
      if not syncing_free
      then (s, ok tt)
      else (need_sync remote_height >>= sync_if fuel chunk_size remote_height commit_free) s
