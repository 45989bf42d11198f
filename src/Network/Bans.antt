-- ===== src/Network/Bans.antt =====
-- What a ban does to a peer that may have one (core/network/src/peer_manager/tags.rs).
use muta.Prelude.{
  Bool, Bool-cases, Option, [], arith, false, inl, inr, nat_eq, none, refl, some, true, ℕ, ◌+◌, ◌∷◌,
  ◌≡◌, ◌⊎◌,
}
use muta.Network.Tags.{
  Tags, add_tag, always_allow, ban, ban_key, banned_for, consensus, contains_tag, custom,
  get_banned_until, get_tag, insert_ban, insert_tag, is_ban, is_privileged, same_tag, tags_or,
  until_of,
}

-- The ban that a peer has after a call of `insert_ban` whose error is dropped.
abbrev until_after : Bool → Option ℕ → ℕ → Option ℕ
until_after true old fresh = old
until_after false none fresh = some fresh
until_after false (some until) fresh = some until

get_tag-ban :
    (tags : Tags)
    → (get_tag ban_key tags ≡ none) ⊎ ((t : ℕ) × (get_tag ban_key tags ≡ some (ban t)))
unfolding get_tag same_tag
get_tag-ban [] = inl refl
get_tag-ban (consensus ∷ tags) = get_tag-ban tags
get_tag-ban (always_allow ∷ tags) = get_tag-ban tags
get_tag-ban (ban t ∷ tags) = inr (t, refl)
get_tag-ban (custom t ∷ tags) = get_tag-ban tags

same_ban : (s t : ℕ) (tags : Tags) → get_tag (ban s) tags ≡ get_tag (ban t) tags
unfolding get_tag same_tag
same_ban s t [] = refl
same_ban s t (consensus ∷ tags) = same_ban s t tags
same_ban s t (always_allow ∷ tags) = same_ban s t tags
same_ban s t (ban u ∷ tags) = refl
same_ban s t (custom u ∷ tags) = same_ban s t tags

-- A ban of a peer changes nothing if the peer is of the consensus or of the allow list, nor if a ban
-- stands there already, whichever of the two ends later; otherwise the peer is banned for the timeout.
pub banned_for-until :
    (now timeout : ℕ) (tags : Tags)
    → get_banned_until (banned_for now timeout tags)
      ≡ until_after (is_privileged tags) (get_banned_until tags) (now + timeout)
unfolding banned_for insert_ban insert_tag tags_or add_tag is_ban contains_tag get_banned_until
    until_of
banned_for-until now timeout tags = elim (Bool-cases (is_privileged tags)) [
  | inl e ↦ ground (arith, e)
  | inr e ↦ elim (get_tag-ban tags) [
    | inl k ↦ ground (arith, e, k, same_ban (now + timeout) 0 tags)
    | inr (t, k) ↦ ground (arith, e, k, same_ban (now + timeout) 0 tags)
  ]
]
