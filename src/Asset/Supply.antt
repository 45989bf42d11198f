-- ===== src/Asset/Supply.antt =====
-- The supply of an asset bounds the balances of its holders, after every operation of the service
-- (built-in-services/asset/src/lib.rs).
use mathlib.Core.Path.{fun_ext, subst}
use native.Mathlib.Decide.{ℕ_discrete}
use muta.Prelude.{
  List, Ok-cases, Option-cases, [], arith, false, inl, inr, ok, refl, some, sym, true, ℕ, ◌+◌, ◌<◌,
  ◌∙◌, ◌∷◌, ◌≡◌, ◌≢◌, ◌≤◌,
}
use muta.Protocol.{Address, Hash, u64_mod}
use muta.Asset.Types.{Asset}
use muta.Asset.Sdk.{AssetEnv, AssetSdk}
use muta.Asset.Service.{move_value}
use muta.Asset.Transfer.{
  balance_of, get-move_value, move_value_covered, move_value_refused, move_value_succeeded, moved,
}
use muta.Asset.Total.{Distinct, total, total_moved_le}

module _ {S : Type 0} (sdk : AssetSdk S) (env : AssetEnv) where
  -- Holders of no asset have nothing, and the balances of an asset sum to its supply at most,
  -- which is a `u64`.
  pub record IsSound (s : S) : Type 0 where
    pub unissued :
        (id : Hash) (u : Address) → sdk.contains s id ≡ false → balance_of sdk env s id u ≡ 0
    pub bounded :
        (id : Hash) (a : Asset)
        → sdk.get s id ≡ some a
        → (l : List Address) → Distinct l
        → total (balance_of sdk env s id) l ≤ a.supply
    pub small : (id : Hash) (a : Asset) → sdk.get s id ≡ some a → a.supply < u64_mod

  -- The value of an asset that is there.
  issued : (s : S) (id : Hash) → sdk.contains s id ≡ true → (a : Asset) × (sdk.get s id ≡ some a)
  issued s id h = elim (Option-cases (sdk.get s id)) [
    | inl e ↦ ground (arith, sdk.contains-get s id)
    | inr found ↦ found
  ]

  one-le :
      (s : S)
      → IsSound s
      → (id : Hash) (a : Asset) → sdk.get s id ≡ some a
      → (u : Address) → balance_of sdk env s id u ≤ a.supply
  one-le s v id a e u = omega (arith, v.bounded id a e (u ∷ []) (refl, tt))

  two-le :
      (s : S)
      → IsSound s
      → (id : Hash) (a : Asset) → sdk.get s id ≡ some a
      → (u w : Address) → u ≢ w
      → balance_of sdk env s id u + balance_of sdk env s id w ≤ a.supply
  two-le s v id a e u w ne = omega (arith, v.bounded id a e (u ∷ w ∷ []) (ground arith, (refl, tt)))

  -- In a sound state no transfer of an issued asset overflows: what the sender has fits.
  pub move_value-no_overflow :
      (sender recipient : Address) (asset_id : Hash) (value : ℕ) (s : S)
      → IsSound s
      → sdk.contains s asset_id ≡ true
      → sender ≢ recipient
      → value ≤ balance_of sdk env s asset_id sender
      → (move_value sdk env sender recipient asset_id value s).0 ≡ ok tt
  move_value-no_overflow sender recipient asset_id value s v here ne cover =
      let (a, found) = issued s asset_id here in
      (move_value_covered sdk env sender recipient asset_id value s ne cover
        (omega (arith, one-le s v asset_id a found sender, v.small asset_id a found))
        (omega
          (arith, two-le s v asset_id a found sender recipient ne, v.small asset_id a found))).0

  pub IsSound-same :
      (s s' : S)
      → ((id : Hash) (u : Address) → balance_of sdk env s' id u ≡ balance_of sdk env s id u)
      → ((id : Hash) → sdk.get s' id ≡ sdk.get s id)
      → IsSound s
      → IsSound s'
  IsSound-same s s' same kept v = record {
    unissued = λ id u h.
        same id u
        ∙ v.unissued id u (ground (arith, sdk.contains-get s id, sdk.contains-get s' id, kept id));
    bounded = λ id a e l d. rw (fun_ext (same id)) (v.bounded id a (sym (kept id) ∙ e) l d);
    small = λ id a e. v.small id a (sym (kept id) ∙ e);
  }

  module _ (sender recipient : Address) (asset_id : Hash) (value : ℕ) (s : S) (v : IsSound s)
      (here : sdk.contains s asset_id ≡ true) (ne : sender ≢ recipient)
      (cover : value ≤ balance_of sdk env s asset_id sender) where
    abbrev after : S
    after = (move_value sdk env sender recipient asset_id value s).1

    after-moved :
        (id : Hash) (u : Address)
        → balance_of sdk env after id u ≡ moved sdk env sender recipient asset_id value s id u
    after-moved =
        let (a, found) = issued s asset_id here in
        (move_value_covered sdk env sender recipient asset_id value s ne cover
          (omega (arith, one-le s v asset_id a found sender, v.small asset_id a found))
          (omega
            (arith, two-le s v asset_id a found sender recipient ne, v.small asset_id a found))).1

    -- The bound of the asset that is moved.
    after-bounded :
        (a : Asset)
        → sdk.get s asset_id ≡ some a
        → (l : List Address) → Distinct l
        → total (balance_of sdk env after asset_id) l ≤ a.supply
    after-bounded a e l d =
        total_moved_le (balance_of sdk env s asset_id) (balance_of sdk env after asset_id) sender
          recipient value ne cover (after-moved asset_id sender ∙ ground arith)
          (after-moved asset_id recipient ∙ ground arith)
          (λ u np nq. after-moved asset_id u ∙ ground arith) a.supply l d
          (v.bounded asset_id a e l d) (λ np. v.bounded asset_id a e (sender ∷ l) (np, d))

    other-same :
        (id : Hash)
        → asset_id ≢ id
        → (u : Address) → balance_of sdk env after id u ≡ balance_of sdk env s id u
    other-same id ne' u = after-moved id u ∙ ground arith

    after-IsSound : IsSound after
    after-IsSound = record {
      unissued = λ id u h. elim (ℕ_discrete asset_id id) [
        | yes p ↦ absurd (
            ground (
              arith,
              p,
              sdk.contains-get s id,
              sdk.contains-get after id,
              get-move_value sdk env sender recipient asset_id value s id,
            ))
        | no n ↦
            other-same id n u
            ∙ v.unissued id u (
                ground (
                  arith,
                  sdk.contains-get s id,
                  sdk.contains-get after id,
                  get-move_value sdk env sender recipient asset_id value s id,
                ))
      ];
      bounded = λ id a e l d.
          let e' = sym (get-move_value sdk env sender recipient asset_id value s id) ∙ e in
          elim (ℕ_discrete asset_id id) [
            | yes p ↦
                subst (λ j. total (balance_of sdk env after j) l ≤ a.supply) p
                  (after-bounded a (rw p e') l d)
            | no n ↦ rw (fun_ext (other-same id n)) (v.bounded id a e' l d)
          ];
      small = λ id a e.
          v.small id a (sym (get-move_value sdk env sender recipient asset_id value s id) ∙ e);
    }

  -- Moving value keeps every asset within its supply, whether the move succeeds or not.
  pub move_value-IsSound :
      (sender recipient : Address) (asset_id : Hash) (value : ℕ) (s : S)
      → IsSound s
      → sdk.contains s asset_id ≡ true
      → IsSound (move_value sdk env sender recipient asset_id value s).1
  move_value-IsSound sender recipient asset_id value s v here =
      elim (Ok-cases (move_value sdk env sender recipient asset_id value s).0) [
        | inl done ↦
            let (ne, cover, _) =
              move_value_succeeded sdk env sender recipient asset_id value s done in
            after-IsSound sender recipient asset_id value s v here ne cover
        | inr failed ↦ rw (move_value_refused sdk env sender recipient asset_id value s failed) v
      ]
