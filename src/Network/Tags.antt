-- ===== src/Network/Tags.antt =====
-- The tags of a peer (core/network/src/peer_manager/tags.rs, protocol/src/traits/network.rs). A
-- `HashSet` of tags, which are equal where their names are: `insert` keeps an equal tag that is there.
use muta.Prelude.{
  Bool, List, Option, Result, [], err, false, if◌then◌else◌, is_some, nat_beq, none, ok, some, true,
  ℕ, ◌&&◌, ◌+◌, ◌||◌, ◌∷◌,
}

pub data PeerTag : Type 0 where
  consensus always_allow : PeerTag
  ban custom : ℕ → PeerTag

pub data TagError : Type 0 where
  peer_always_allow : TagError

-- A custom tag has none of the other names: `PeerTag::custom` refuses them.
unfoldable pub same_tag : PeerTag → PeerTag → Bool
same_tag consensus consensus = true
same_tag always_allow always_allow = true
same_tag (ban t) (ban u) = true
same_tag (custom s) (custom t) = nat_beq s t
same_tag s t = false

abbrev pub ban_key : PeerTag
ban_key = ban 0

abbrev pub Tags : Type 0
Tags = List PeerTag

unfoldable pub get_tag : PeerTag → Tags → Option PeerTag
unfolding same_tag
get_tag t [] = none
get_tag t (s ∷ tags) = if same_tag t s then some s else get_tag t tags

unfoldable pub contains_tag : PeerTag → Tags → Bool
unfolding get_tag
contains_tag t tags = is_some (get_tag t tags)

unfoldable pub remove_tag : PeerTag → Tags → Tags
unfolding same_tag
remove_tag t [] = []
remove_tag t (s ∷ tags) = let rest = remove_tag t tags in if same_tag t s then rest else s ∷ rest

unfoldable pub add_tag : PeerTag → Tags → Tags
unfolding contains_tag
add_tag t tags = if contains_tag t tags then tags else t ∷ tags

unfoldable pub is_ban : PeerTag → Bool
is_ban (ban until) = true
is_ban t = false

-- A peer of the consensus or of the allow list: never banned, nor refused for a limit.
unfoldable pub is_privileged : Tags → Bool
unfolding contains_tag
is_privileged tags = contains_tag always_allow tags || contains_tag consensus tags

unfoldable pub insert_tag : PeerTag → Tags → Result Tags TagError
unfolding is_ban is_privileged add_tag
insert_tag t tags =
    if is_ban t && is_privileged tags then err peer_always_allow else ok (add_tag t tags)

unfoldable pub until_of : PeerTag → Option ℕ
until_of (ban until) = some until
until_of t = none

unfoldable pub get_banned_until : Tags → Option ℕ
unfolding get_tag until_of
get_banned_until tags = elim (get_tag ban_key tags) [ none ↦ none | some t ↦ until_of t ]

-- `insert_ban`, whose callers go on after an error with the tags as they were.
unfoldable pub insert_ban : ℕ → ℕ → Tags → Result Tags TagError
unfolding insert_tag
insert_ban now timeout tags = insert_tag (ban (now + timeout)) tags

unfoldable pub tags_or : Tags → Result Tags TagError → Tags
tags_or old (ok tags) = tags
tags_or old (err e) = old

unfoldable pub banned_for : ℕ → ℕ → Tags → Tags
unfolding insert_ban tags_or
banned_for now timeout tags = tags_or tags (insert_ban now timeout tags)
