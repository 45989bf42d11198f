-- ===== src/Consensus/Actions.antt =====
-- Actions on a state that end in a result: an early return of an `async fn` (the operator `?`) keeps
-- what the function did to the state before it.
use muta.Prelude.{Bool, ap, arith, err, false, if◌then◌else◌, ok, refl, true, ◌≡◌}
use muta.Consensus.Types.{ConsensusError, ConsensusResult}

abbrev pub Action : Type 0 → Type 0 → Type 0
Action S A = S → S × ConsensusResult A

module _ {S A B : Type 0} where
  abbrev resume : S × ConsensusResult A → (A → Action S B) → S × ConsensusResult B
  resume (s, ok a) f = f a s
  resume (s, err e) f = (s, err e)

  infixl 5 ◌>>=◌ ◌>>◌
  unfoldable pub ◌>>=◌ : Action S A → (A → Action S B) → Action S B
  (m >>= f) s = resume (m s) f

  unfoldable pub ◌>>◌ : Action S A → Action S B → Action S B
  (m >> k) s = resume (m s) (λ _. k)

  resume-ok :
      (r : S × ConsensusResult A) (f : A → Action S B) (s' : S) (b : B)
      → resume r f ≡ (s', ok b)
      → (s : S) × (a : A) × (r ≡ (s, ok a)) × (f a s ≡ (s', ok b))
  resume-ok (s, ok a) f s' b h = (s, a, refl, h)
  resume-ok (s, err e) f s' b h = absurd (ground (arith, ap (λ r. r.1) h))

  -- What follows from the success of both links of a chain follows from that of the chain. A question
  -- and a fixed result leave the state to the second link.
  module _ {ℓ} {P : Type ℓ} (s s' : S) (b : B) where
    pub chain_with :
        (m : Action S A) (f : A → Action S B)
        → (m >>= f) s ≡ (s', ok b)
        → ((s1 : S) (a : A) → m s ≡ (s1, ok a) → f a s1 ≡ (s', ok b) → P)
        → P
    unfolding ◌>>=◌
    chain_with m f h k = let (s1, a, e, r) = resume-ok (m s) f s' b h in k s1 a e r

    pub after_with :
        (m : Action S A) (f : Action S B)
        → (m >> f) s ≡ (s', ok b)
        → ((s1 : S) (a : A) → m s ≡ (s1, ok a) → f s1 ≡ (s', ok b) → P)
        → P
    unfolding ◌>>◌
    after_with m f h k = let (s1, a, e, r) = resume-ok (m s) (λ _. f) s' b h in k s1 a e r

    lift_with :
        (r : ConsensusResult A) (f : A → Action S B)
        → resume (s, r) f ≡ (s', ok b)
        → ((a : A) → r ≡ ok a → f a s ≡ (s', ok b) → P)
        → P
    lift_with (ok a) f h k = k a refl h
    lift_with (err e) f h k = absurd (ground (arith, ap (λ r. r.1) h))

    pub ask_with :
        (q : S → ConsensusResult A) (f : A → Action S B)
        → ((λ x. (x, q x)) >>= f) s ≡ (s', ok b)
        → ((a : A) → q s ≡ ok a → f a s ≡ (s', ok b) → P)
        → P
    unfolding ◌>>=◌
    ask_with q f h k = lift_with (q s) f h k

    pub ask_after :
        (q : S → ConsensusResult A) (f : Action S B)
        → ((λ x. (x, q x)) >> f) s ≡ (s', ok b)
        → ((a : A) → q s ≡ ok a → f s ≡ (s', ok b) → P)
        → P
    unfolding ◌>>◌
    ask_after q f h k = lift_with (q s) (λ _. f) h k

module _ {S A : Type 0} where
  abbrev pub pure : A → Action S A
  pure a s = (s, ok a)

  -- A result that leaves the state.
  abbrev pub lift : ConsensusResult A → Action S A
  lift r s = (s, r)

  -- A question to what the state decides.
  abbrev pub ask : (S → ConsensusResult A) → Action S A
  ask question s = (s, question s)

  -- What left the state and has a result had that result before.
  pub pair-ok :
      (s s' : S) (r : ConsensusResult A) (a : A)
      → ◌≡◌ {A = S × ConsensusResult A} (s, r) (s', ok a)
      → (s ≡ s') × (r ≡ ok a)
  pair-ok s s' r a h = (ap (λ p. p.0) h, ap (λ p. p.1) h)

  -- A guard that refuses, and what is done where it does not.
  pub refused_or :
      (b : Bool) (s s' : S) (e : ConsensusError) (rest : S × ConsensusResult A) (a : A)
      → ◌≡◌ {A = S × ConsensusResult A} (if b then (s, err e) else rest) (s', ok a)
      → (b ≡ false) × (rest ≡ (s', ok a))
  refused_or true s s' e rest a h = absurd (ground (arith, ap (λ p. p.1) h))
  refused_or false s s' e rest a h = (refl, h)
