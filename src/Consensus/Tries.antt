-- ===== src/Consensus/Tries.antt =====
-- The tries of an execution, and what an effect leaves to the steps after it (core/consensus/src/engine.rs).
use mathlib.Core.Path.{subst}
use muta.Prelude.{
  List, Option, ap, arith, err, nat_eq, none, ok, refl, some, suc, sym, zero, ℕ, ◌<◌, ◌∷◌, ◌≡◌, ◌≤◌,
}
use muta.Consensus.Types.{ConsensusError, ConsensusResult}
use muta.Consensus.Status.{CurrentConsensusStatus}
use muta.Consensus.Actions.{Action, pair-ok, ◌>>◌}
use muta.Consensus.Engine.{EngineEffect, EngineState, Host, delayed, emit, noted}
use muta.Consensus.Commit.{exec_until, set_status}

module _ {Tx : Type 0} (host : Host Tx) where
  -- The effects after some refused tries.
  abbrev pub delays : ℕ → List (EngineEffect Tx) → List (EngineEffect Tx)
  delays zero effects = effects
  delays (suc k) effects = delays k (delayed ∷ effects)

  -- One try, and what is done where it is refused.
  abbrev after_try :
      ℕ
      → EngineEffect Tx
      → EngineState Tx
      → ConsensusResult (Unit {0})
      → EngineState Tx × ConsensusResult (Unit {0})
  after_try n e s r = elim r [
    | ok _ ↦ (record s { effects = e ∷ s.effects }, ok tt)
    | err _ ↦ exec_until host n e (record s { effects = delayed ∷ s.effects })
  ]

  -- The executor refuses each of so many tries, a delay after each.
  abbrev pub IsRefused : ℕ → EngineEffect Tx → List (EngineEffect Tx) → Type 0
  IsRefused zero e effects = Unit {0}
  IsRefused (suc j) e effects =
      ((x : ConsensusError) × (host.perform effects e ≡ err x)) × IsRefused j e (delayed ∷ effects)

  -- So many tries are refused, and the next one is accepted.
  abbrev pub IsFirst : ℕ → EngineEffect Tx → List (EngineEffect Tx) → Type 0
  IsFirst j e effects = IsRefused j e effects × (host.perform (delays j effects) e ≡ ok tt)

  -- Accepted at the first try that is, after at most so many delays.
  abbrev pub AcceptedWithin :
      ℕ → EngineEffect Tx → EngineState Tx → EngineState Tx × ConsensusResult (Unit {0}) → Type 0
  AcceptedWithin k e s result =
      (j : ℕ) × (j ≤ k)
      × IsFirst j e s.effects
      × (result ≡ (record s { effects = e ∷ delays j s.effects }, ok tt))

  tried :
      (k n : ℕ) (e : EngineEffect Tx) (s : EngineState Tx) (r : ConsensusResult (Unit {0}))
      → r ≡ host.perform s.effects e
      → host.perform (delays k s.effects) e ≡ ok tt
      → ((i : ℕ)
          → suc i ≡ k
          → AcceptedWithin i e
              (record s { effects = delayed ∷ s.effects })
              (exec_until host n e (record s { effects = delayed ∷ s.effects })))
      → AcceptedWithin k e s (after_try n e s r)
  tried k n e s (ok u) same accepted later = (0, omega arith, (tt, sym same), refl)
  tried zero n e s (err x) same accepted later = cc
  tried (suc i) n e s (err x) same accepted later =
      let (j, low, (refused, last), found) = later i refl in
      (suc j, omega (arith, low), (((x, sym same), refused), last), found)

  -- An execution that the executor accepts after some number of delays is accepted if the tries are
  -- more than these delays: it ends at the first try that the executor accepts, after at most as many
  -- delays, with one delay for each try before it, all of which the executor refused.
  pub exec_until-AcceptedWithin :
      (k n : ℕ) (e : EngineEffect Tx) (s : EngineState Tx)
      → k < n
      → host.perform (delays k s.effects) e ≡ ok tt
      → AcceptedWithin k e s (exec_until host n e s)
  unfolding exec_until
  exec_until-AcceptedWithin k zero e s more accepted = absurd (omega (arith, more))
  exec_until-AcceptedWithin k (suc n) e s more accepted =
      tried k n e s (host.perform s.effects e) refl accepted (λ i same.
        exec_until-AcceptedWithin i n e (record s { effects = delayed ∷ s.effects })
          (omega (arith, more, same))
          (subst (λ x. host.perform (delays x s.effects) e ≡ ok tt) (sym same) accepted))

  tried_ok :
      (n : ℕ) (e : EngineEffect Tx) (s s' : EngineState Tx) (r : ConsensusResult (Unit {0}))
      → r ≡ host.perform s.effects e
      → ((t : EngineState Tx)
          → exec_until host n e t ≡ (s', ok tt)
          → (j : ℕ) × IsFirst j e t.effects × (record t { effects = e ∷ delays j t.effects } ≡ s'))
      → after_try n e s r ≡ (s', ok tt)
      → (j : ℕ) × IsFirst j e s.effects × (record s { effects = e ∷ delays j s.effects } ≡ s')
  tried_ok n e s s' (ok u) asked later h = (0, (tt, sym asked), (pair-ok _ s' _ _ h).0)
  tried_ok n e s s' (err x) asked later h =
      let (j, (refused, last), same) = later (record s { effects = delayed ∷ s.effects }) h in
      (suc j, (((x, sym asked), refused), last), same)

  pub exec_until-effects :
      (n : ℕ) (e : EngineEffect Tx) (s s' : EngineState Tx)
      → exec_until host n e s ≡ (s', ok tt)
      → (j : ℕ) × IsFirst j e s.effects × (record s { effects = e ∷ delays j s.effects } ≡ s')
  unfolding exec_until
  exec_until-effects zero e s s' h = absurd (ground (arith, ap (λ r. r.1) h))
  exec_until-effects (suc n) e s s' h =
      tried_ok n e s s' (host.perform s.effects e) refl (λ t. exec_until-effects n e t s') h

  -- The state after an effect, handed to what follows.
  module _ {A : Type 0} {P : Type 0} (s s' : EngineState Tx) (b : A)
      (f : Action (EngineState Tx) A) where
    noted_after :
        (r : ConsensusResult (Unit {0})) (e : EngineEffect Tx)
        → ((λ t. noted host r e s) >> f) s ≡ (s', ok b)
        → (f (record s { effects = e ∷ s.effects }) ≡ (s', ok b) → P)
        → P
    unfolding ◌>>◌
    noted_after (ok u) e h k = k h
    noted_after (err x) e h k = absurd (ground (arith, ap (λ p. p.1) h))

    pub emit_after :
        (e : EngineEffect Tx)
        → (emit host e >> f) s ≡ (s', ok b)
        → (f (record s { effects = e ∷ s.effects }) ≡ (s', ok b) → P)
        → P
    unfolding ◌>>◌
    emit_after e h k = noted_after (host.perform s.effects e) e h k

    set_status_after :
        (o : Option CurrentConsensusStatus)
        → ((λ t. set_status host o s) >> f) s ≡ (s', ok b)
        → ((status : CurrentConsensusStatus)
            → o ≡ some status
            → f (record s { status = status }) ≡ (s', ok b)
            → P)
        → P
    unfolding ◌>>◌
    set_status_after none h k = absurd (ground (arith, ap (λ p. p.1) h))
    set_status_after (some status) h k = k status refl h

    pub status_after :
        (g : CurrentConsensusStatus → Option CurrentConsensusStatus)
        → ((λ t. set_status host (g t.status) t) >> f) s ≡ (s', ok b)
        → ((status : CurrentConsensusStatus)
            → g s.status ≡ some status
            → f (record s { status = status }) ≡ (s', ok b)
            → P)
        → P
    unfolding ◌>>◌
    status_after g h k = set_status_after (g s.status) h k

  pub noted-ok :
      (r : ConsensusResult (Unit {0})) (e : EngineEffect Tx) (s s' : EngineState Tx) (u : Unit {0})
      → noted host r e s ≡ (s', ok u)
      → record s { effects = e ∷ s.effects } ≡ s'
  noted-ok (ok v) e s s' u h = ap (λ p. p.0) h
  noted-ok (err x) e s s' u h = absurd (ground (arith, ap (λ p. p.1) h))
