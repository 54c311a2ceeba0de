-- ===== src/ActiveSockets.antt =====
-- class ActiveSockets of active_sockets.hpp and active_sockets.cpp: the peers that have a connection.
-- The lock makes each call one step. The unordered set is a list without order that matters.
pub mod Membership
use torrent_client.Base.{
  ℕ, suc, List, [], ◌∷◌, Bool, true, false, ◌||◌, ◌&&◌, not, ◌==◌, if◌then◌else◌, length,
}

pub record LightPeerInfo : Type 0 where
  pub address : ℕ
  pub port : ℕ

-- LightPeerInfo::operator ==
abbrev pub is_same : LightPeerInfo → LightPeerInfo → Bool
is_same a b = (a.address == b.address) && (a.port == b.port)

abbrev pub ActiveSockets : Type 0
ActiveSockets = List LightPeerInfo

abbrev pub has : LightPeerInfo → ActiveSockets → Bool
has p [] = false
has p (q ∷ s) = is_same q p || has p s

-- erase of the element that is equal
unfoldable pub without : LightPeerInfo → ActiveSockets → ActiveSockets
without p [] = []
without p (q ∷ s) = if is_same q p then s else q ∷ without p s

-- ActiveSockets::add: whether the peer is new, and the set with it.
unfoldable pub add : LightPeerInfo → ActiveSockets → Bool × ActiveSockets
add p s = if has p s then (false, s) else (true, p ∷ s)

-- ActiveSockets::remove: whether the peer was there, and the set without it.
unfoldable pub remove : LightPeerInfo → ActiveSockets → Bool × ActiveSockets
unfolding without
remove p s = (has p s, without p s)

-- ActiveSockets::size
unfoldable pub size : ActiveSockets → ℕ
size s = length s
