-- ===== src/Asset/Total.antt =====
-- Sums of balances over a list of accounts, and how one change of the balances moves them.
use muta.Prelude.{
  Bool, Bool-cases, List, [], ap, arith, false, if◌then◌else◌, inl, inr, nat_beq, refl, true, ℕ,
  ◌+◌, ◌-◌, ◌∷◌, ◌≡◌, ◌≢◌, ◌≤◌,
}
use muta.Protocol.{Address}

abbrev pub total : (Address → ℕ) → List Address → ℕ
total f [] = 0
total f (u ∷ l) = f u + total f l

abbrev pub is_listed : Address → List Address → Bool
is_listed u [] = false
is_listed u (v ∷ l) = if nat_beq v u then true else is_listed u l

-- No account is listed twice.
abbrev pub Distinct : List Address → Type 0
Distinct [] = Unit
Distinct (u ∷ l) = (is_listed u l ≡ false) × Distinct l

module _ (f g : Address → ℕ) (p : Address) (same : (u : Address) → u ≢ p → g u ≡ f u) where
  pub total_unlisted : (l : List Address) → is_listed p l ≡ false → total g l ≡ total f l
  total_unlisted [] h = refl
  total_unlisted (u ∷ l) h = ground (arith, total_unlisted l, same u)

  pub total_listed :
      (l : List Address) → Distinct l → is_listed p l ≡ true → total g l + f p ≡ total f l + g p
  total_listed [] d h = cc
  total_listed (u ∷ l) d h = elim (Bool-cases (nat_beq u p)) [
    | inl e ↦
        let here : u ≡ p = ground arith in
        ground (arith, total_unlisted l (rw here at d.0), ap f here, ap g here)
    | inr n ↦ ground (arith, total_listed l d.1, same u)
  ]

-- One account that holds everything.
pub total_single-le :
    (p : Address) (v : ℕ) (l : List Address)
    → Distinct l
    → (total (λ u. if nat_beq p u then v else 0) l ≤ v)
      × (is_listed p l ≡ false → total (λ u. if nat_beq p u then v else 0) l ≡ 0)
total_single-le p v [] d = (omega arith, λ h. refl)
total_single-le p v (u ∷ l) d =
    let (le, none_left) = total_single-le p v l d.1 in
    elim (Bool-cases (nat_beq p u)) [
      | inl e ↦
          let here : p ≡ u = ground arith in
          (ground (arith, le, none_left (rw here d.0)), λ h. absurd (ground arith))
      | inr n ↦ (ground (arith, le), λ h. ground (arith, none_left))
    ]

-- Moving `v` from one account to another keeps the sum over a list with both, and over any other
-- list adds at most `v`.
module _ (f g : Address → ℕ) (p q : Address) (v : ℕ) (ne : p ≢ q) (cover : v ≤ f p)
    (at_p : g p ≡ f p - v) (at_q : g q ≡ f q + v)
    (same : (u : Address) → u ≢ p → u ≢ q → g u ≡ f u) where
  -- the balances with only the receiver's change made
  abbrev between : Address → ℕ
  between u = if nat_beq q u then f q + v else f u

  between-f : (u : Address) → u ≢ q → between u ≡ f u
  between-f u h = ground arith

  g-between : (u : Address) → u ≢ p → g u ≡ between u
  g-between u h = elim (Bool-cases (nat_beq q u)) [
    | inl e ↦ let here : q ≡ u = ground arith in rw (← here) (ground (arith, ap f here, ap g here))
    | inr n ↦ ground (arith, same u)
  ]

  pub total_moved :
      (l : List Address)
      → Distinct l
      → is_listed p l ≡ true
      → is_listed q l ≡ true
      → total g l ≡ total f l
  total_moved l d hp hq =
      ground (
        arith,
        total_listed f between q between-f l d hq,
        total_listed between g p g-between l d hp,
      )

  -- A list with neither or with both keeps its sum; with `q` alone it is bounded through `p ∷ l`.
  pub total_moved_le :
      (bound : ℕ) (l : List Address)
      → Distinct l
      → total f l ≤ bound
      → (is_listed p l ≡ false → f p + total f l ≤ bound)
      → total g l ≤ bound
  total_moved_le bound l d h more = elim (Bool-cases (is_listed p l)) [
    | inl hp ↦ elim (Bool-cases (is_listed q l)) [
      | inl hq ↦ rw (total_moved l d hp hq) h
      | inr nq ↦ ground (
        arith,
        total_unlisted f between q between-f l nq,
        total_listed between g p g-between l d hp,
      )
    ]
    | inr np ↦ elim (Bool-cases (is_listed q l)) [
      | inl hq ↦ ground (
        arith,
        more np,
        total_listed f between q between-f l d hq,
        total_unlisted between g p g-between l np,
      )
      | inr nq ↦ ground (
        arith,
        total_unlisted f between q between-f l nq,
        total_unlisted between g p g-between l np,
      )
    ]
  ]
