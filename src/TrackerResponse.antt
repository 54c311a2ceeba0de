-- ===== src/TrackerResponse.antt =====
-- tracker_response.hpp and tracker_response.cpp: what a tracker answers. inet_ntop and
-- IpAddr::get_sockaddr_in are from other libraries, and parameters; `none` is a call that fails.
pub mod Filling
pub mod Peers
pub mod Encoded
pub mod Progress
use torrent_client.Base.{
  ℕ, zero, suc, ◌+◌, ◌*◌, ◌/◌, ◌%◌, ◌^◌, Bytes, codes, equal, List, [], ◌∷◌, ◌++◌, Bool, true,
  false, ◌&&◌, not, Option, none, some, leb, if◌then◌else◌, drop, length,
}
use torrent_client.BeParser.{
  BeToken, TokenType, int, str, list_start, list_end, dict_start, dict_end,
}
use torrent_client.SubStrings.{SubStrings}
use torrent_client.TokenListProcessor.{
  Filled, filled, raised, undefined_behaviour, runtime_error, foreign, then_do, with_number, stoll,
  token_at, Filler, Fillers, fill_int, fill_str, process,
}

-- sockaddr_in: the address and the port are the bytes that the struct holds, in network order.
pub record SockAddr : Type 0 where
  pub sin_family : ℕ
  pub s_addr : Bytes
  pub sin_port : Bytes

pub record Peer : Type 0 where
  pub id : Bytes
  pub ip : Bytes
  pub port : ℕ
  pub saddr : SockAddr

pub record TrackerResponse : Type 0 where
  pub peers : List Peer
  pub failure_reason : Bytes
  pub warning : Bytes
  pub tracker_id : Bytes
  pub interval : ℕ
  pub min_interval : ℕ
  pub complete : ℕ
  pub incomplete : ℕ
  pub valid : Bool

-- Peer()
abbrev pub new_peer : Peer
new_peer =
    let zeros : SockAddr = record {
      sin_family = 0;
      s_addr = 0 ∷ 0 ∷ 0 ∷ 0 ∷ [];
      sin_port = 0 ∷ 0 ∷ [];
    } in
    record { id = []; ip = []; port = 0; saddr = zeros }

abbrev pub new_response : TrackerResponse
new_response = record {
  peers = [];
  failure_reason = [];
  warning = [];
  tracker_id = [];
  interval = 0;
  min_interval = 0;
  complete = 0;
  incomplete = 0;
  valid = false;
}

-- m_peers.resize(n)
abbrev pub resize : ℕ → List Peer → List Peer
resize zero peers = []
resize (suc n) [] = new_peer ∷ resize n []
resize (suc n) (p ∷ peers) = p ∷ resize n peers

-- A change of m_peers.back(), which is undefined where there is no peer.
abbrev pub change_last : (Peer → Peer) → List Peer → List Peer
change_last change [] = []
change_last change (p ∷ []) = change p ∷ []
change_last change (p ∷ q ∷ peers) = p ∷ change_last change (q ∷ peers)

abbrev pub back : List Peer → Option Peer
back [] = none
back (p ∷ []) = some p
back (p ∷ q ∷ peers) = back (q ∷ peers)

abbrev pub with_back : Option Peer → (Peer → Filled TrackerResponse) → Filled TrackerResponse
with_back none k = undefined_behaviour
with_back (some p) k = k p

abbrev pub is_empty : {A : Type 0} → List A → Bool
is_empty [] = true
is_empty (x ∷ xs) = false

-- The change that a key of a peer's dictionary asks for.
abbrev pub set_peer :
    Bytes
    → Bytes
    → TrackerResponse
    → (TrackerResponse → Filled TrackerResponse)
    → Filled TrackerResponse
set_peer key value t k =
    let changed : (Peer → Peer) → Filled TrackerResponse = λ change.
      with_back (back t.peers) (λ p. k (record t { peers = change_last change t.peers })) in
    if equal key (codes "peer id")
    then changed (λ p. record p { id = value })
    else if equal key (codes "ip")
    then changed (λ p. record p { ip = value })
    else if equal key (codes "port")
    then with_number (stoll value) (λ n. changed (λ p. record p { port = n % 2 ^ 16 }))
    else k t

-- How the loop of fill_peers_compact ends: what stands behind the text is not the tracker's, and a
-- read of it counts as undefined.
pub data Compact : Type 0 where
  all_set : List Peer → Compact
  invalid_ip too_short : Compact

module _ (inet_ntop : Bytes → Option Bytes) where
  -- The body of the loop of fill_peers_compact, on the six bytes of a peer.
  abbrev pub set_compact : Peer → ℕ → ℕ → ℕ → ℕ → ℕ → ℕ → Option Peer
  set_compact p a b c d hi lo = elim (inet_ntop (a ∷ b ∷ c ∷ d ∷ [])) [
    | none ↦ none
    | some text ↦ some (record p {
      ip = text;
      port = hi * 256 + lo;
      saddr = record { sin_family = 2; s_addr = a ∷ b ∷ c ∷ d ∷ []; sin_port = hi ∷ lo ∷ [] };
    })
  ]

  abbrev pub peer_before : Option Peer → Compact → Compact
  peer_before none more = invalid_ip
  peer_before (some p) (all_set peers) = all_set (p ∷ peers)
  peer_before (some p) other = other

  -- The loop of fill_peers_compact
  unfoldable pub compact_peers : List Peer → Bytes → Compact
  compact_peers [] bytes = all_set []
  compact_peers (p ∷ peers) (a ∷ b ∷ c ∷ d ∷ hi ∷ lo ∷ bytes) =
      peer_before (set_compact p a b c d hi lo) (compact_peers peers bytes)
  compact_peers (p ∷ peers) other = too_short
