-- ===== src/Asset/Transfer.antt =====
-- What `_transfer` does to the accounts (built-in-services/asset/src/lib.rs).
use muta.Prelude.{Dict, arith, if◌then◌else◌, nat_beq, ok, refl, ℕ, ◌+◌, ◌-◌, ◌<◌, ◌≡◌, ◌≢◌, ◌≤◌}
use muta.Protocol.{Address, Hash, u64_mod}
use muta.Asset.Sdk.{AssetEnv, AssetSdk}
use muta.Asset.Service.{balance_or_empty, move_value}

module _ {S : Type 0} (sdk : AssetSdk S) (env : AssetEnv) where
  -- The balance that `get_balance` reports.
  abbrev pub balance_of : S → Hash → Address → ℕ
  balance_of s id u = (balance_or_empty sdk env s u id).value

  abbrev pub allowance_of : S → Hash → Address → Dict Address ℕ
  allowance_of s id u = (balance_or_empty sdk env s u id).allowance

  -- What a move of `value` leaves at one account.
  abbrev pub moved : Address → Address → Hash → ℕ → S → Hash → Address → ℕ
  moved sender recipient asset_id value s id u =
      if nat_beq asset_id id
      then if nat_beq sender u
        then balance_of s id u - value
        else if nat_beq recipient u
        then balance_of s id u + value
        else balance_of s id u
      else balance_of s id u

  -- The two accounts as a covered move writes them.
  abbrev after_move : Address → Address → Hash → ℕ → S → S
  after_move sender recipient asset_id value s =
      let from = balance_or_empty sdk env s sender asset_id in
      let to = balance_or_empty sdk env s recipient asset_id in
      sdk.set_account_value
        (sdk.set_account_value s recipient asset_id (record to { value = to.value + value })) sender
        asset_id (record from { value = from.value - value })

  module _ (sender recipient : Address) (asset_id : Hash) (value : ℕ) (s : S) where
    move_value-after_move :
        sender ≢ recipient
        → value ≤ balance_of s asset_id sender
        → balance_of s asset_id sender < u64_mod
        → balance_of s asset_id recipient + value < u64_mod
        → move_value sdk env sender recipient asset_id value s
          ≡ (ok tt, after_move sender recipient asset_id value s)
    unfolding move_value
    move_value-after_move ne cover small room = ground arith

    after_move-balance :
        sender ≢ recipient
        → (id : Hash) (u : Address)
        → balance_of (after_move sender recipient asset_id value s) id u
          ≡ moved sender recipient asset_id value s id u
    after_move-balance ne id u = ground (
      arith,
      sdk.get_account_value-set_account_value
          (sdk.set_account_value s recipient asset_id
            (record (balance_or_empty sdk env s recipient asset_id) {
              value = balance_of s asset_id recipient + value;
            }))
          sender asset_id
          (record (balance_or_empty sdk env s sender asset_id) {
            value = balance_of s asset_id sender - value;
          })
          u id,
      sdk.get_account_value-set_account_value s recipient asset_id
          (record (balance_or_empty sdk env s recipient asset_id) {
            value = balance_of s asset_id recipient + value;
          })
          u id,
    )

    -- A move that the balances cover succeeds and changes exactly the two balances.
    pub move_value_covered :
        sender ≢ recipient
        → value ≤ balance_of s asset_id sender
        → balance_of s asset_id sender < u64_mod
        → balance_of s asset_id recipient + value < u64_mod
        → let (r, s') = move_value sdk env sender recipient asset_id value s in
          (r ≡ ok tt)
          × ((id : Hash) (u : Address)
              → balance_of s' id u ≡ moved sender recipient asset_id value s id u)
    move_value_covered ne cover small room =
        rw (move_value-after_move ne cover small room) (refl, after_move-balance ne)

  -- A move that is refused writes nothing.
  pub move_value_refused :
      (sender recipient : Address) (asset_id : Hash) (value : ℕ) (s : S)
      → (move_value sdk env sender recipient asset_id value s).0 ≢ ok tt
      → (move_value sdk env sender recipient asset_id value s).1 ≡ s
  unfolding move_value
  move_value_refused sender recipient asset_id value s h = ground arith

  -- No move changes an asset's record.
  pub get-move_value :
      (sender recipient : Address) (asset_id : Hash) (value : ℕ) (s : S) (j : Hash)
      → sdk.get (move_value sdk env sender recipient asset_id value s).1 j ≡ sdk.get s j
  unfolding move_value
  get-move_value sender recipient asset_id value s j = grind (arith, sdk.get-set_account_value)

  -- A move that succeeds was covered, and went to another account.
  pub move_value_succeeded :
      (sender recipient : Address) (asset_id : Hash) (value : ℕ) (s : S)
      → (move_value sdk env sender recipient asset_id value s).0 ≡ ok tt
      → (sender ≢ recipient)
        × (value ≤ balance_of s asset_id sender)
        × (balance_of s asset_id recipient + value < u64_mod)
  unfolding move_value
  move_value_succeeded sender recipient asset_id value s h =
      (ground arith, ground arith, ground arith)

  after_move-allowance :
      (sender recipient : Address) (asset_id : Hash) (value : ℕ) (s : S) (id : Hash) (u : Address)
      → allowance_of (after_move sender recipient asset_id value s) id u ≡ allowance_of s id u
  after_move-allowance sender recipient asset_id value s id u = ground (
    arith,
    sdk.get_account_value-set_account_value
        (sdk.set_account_value s recipient asset_id
          (record (balance_or_empty sdk env s recipient asset_id) {
            value = balance_of s asset_id recipient + value;
          }))
        sender asset_id
        (record (balance_or_empty sdk env s sender asset_id) {
          value = balance_of s asset_id sender - value;
        })
        u id,
    sdk.get_account_value-set_account_value s recipient asset_id
        (record (balance_or_empty sdk env s recipient asset_id) {
          value = balance_of s asset_id recipient + value;
        })
        u id,
  )

  -- A move that succeeds moves the value and leaves every allowance alone.
  pub move_value_done :
      (sender recipient : Address) (asset_id : Hash) (value : ℕ) (s : S)
      → balance_of s asset_id sender < u64_mod
      → (move_value sdk env sender recipient asset_id value s).0 ≡ ok tt
      → let s' = (move_value sdk env sender recipient asset_id value s).1 in
        ((id : Hash) (u : Address)
          → balance_of s' id u ≡ moved sender recipient asset_id value s id u)
        × ((id : Hash) (u : Address) → allowance_of s' id u ≡ allowance_of s id u)
  move_value_done sender recipient asset_id value s small h =
      let (ne, cover, room) = move_value_succeeded sender recipient asset_id value s h in
      rw (move_value-after_move sender recipient asset_id value s ne cover small room) (
        after_move-balance sender recipient asset_id value s ne,
        after_move-allowance sender recipient asset_id value s,
      )
