-- ===== src/TrackerConnection.antt =====
-- class TrackerConnection of init_http_request.hpp and init_http_request.cpp: the request to a
-- tracker, and what its answer leads to. The sockets and Url are from other libraries, and
-- parameters.
pub mod Answer
pub mod Header
pub mod Clients
use Prim.Native.String.{String}
use torrent_client.Base.{
  ℕ, zero, suc, ◌+◌, ◌-◌, Bytes, codes, c_str, find_part, List, [], ◌∷◌, ◌++◌, Option, none, some,
  Bool, true, false, ◌==◌, leb, if◌then◌else◌, take, drop, length,
}
use torrent_client.BeParser.{BeToken, Parsed, done, failed, out_of_fuel, parse}
use torrent_client.SubStrings.{SubStrings}
use torrent_client.TokenListProcessor.{
  Error, Filled, filled, raised, undefined_behaviour, unfinished, runtime_error,
}
use torrent_client.TrackerResponse.{SockAddr, Peer, TrackerResponse}
use torrent_client.TrackerResponse.Filling.{respond}
use torrent_client.DownloadManager.{Url}
use torrent_client.ActiveSockets.{LightPeerInfo, ActiveSockets, remove}

-- Socket, with the poller and the other sockets as its state: read of at most so many bytes, write,
-- the peer that a socket is connected to, create_tcp_client, which can throw, what gives a new
-- client its callbacks and its place in the poller, and add_to_poller to read or to write.
pub record Sockets : Type 1 where
  pub State : Type 0
  pub read : ℕ → State → Bytes × State
  pub write : Bytes → State → State
  pub remote_ip : State → LightPeerInfo
  pub create_tcp_client : SockAddr → State → Option LightPeerInfo × State
  pub attach_client_logic : LightPeerInfo → State → State
  pub add_to_poller_read : State → State
  pub add_to_poller_write : State → State

pub data ConnectionState : Type 0 where
  wait_for_read wait_for_write : ConnectionState

pub record TrackerConnection : Type 0 where
  pub state : ConnectionState
  pub url : Url
  pub active_sockets : ActiveSockets

-- What a callback does with the connection and the sockets
pub data Reaction (S : Type 0) : Type 0 where
  returns : TrackerConnection → S → Reaction S
  throws : Error → S → Reaction S
  undefined : Reaction S
  never : Reaction S

-- The loop of on_read: what is in the buffer, or no fuel left.
pub data Received (S : Type 0) : Type 0 where
  received : Bytes → S → Received S
  receiving : Received S

-- The end of the header: delim
unfoldable pub header_end : Bytes → Option ℕ
header_end buffer = elim (find_part (codes "\r\n\r\n") (c_str buffer)) [
  | some n ↦ some (n + 4)
  | none ↦ elim (find_part (codes "\n\n") (c_str buffer)) [ some n ↦ some (n + 2) | none ↦ none ]
]

module _ (sockets : Sockets) where
  unfoldable pub receive : ℕ → Bytes → sockets.State → Received sockets.State
  receive zero buffer s = receiving
  receive (suc fuel) buffer s =
      let (bytes, s') = sockets.read (50000 - length buffer) s in
      let more = receive fuel (buffer ++ bytes) s' in
      if length bytes == 0 then received buffer s' else more

  -- The loop of on_read from its start: each round that goes on adds a byte at least.
  unfoldable pub receive_all : sockets.State → Received sockets.State
  unfolding receive
  receive_all s = receive 50001 [] s

  -- What create_tcp_client leads to
  abbrev pub use_client :
      Option LightPeerInfo → TrackerConnection → sockets.State → TrackerConnection × sockets.State
  use_client none c s = (c, s)
  use_client (some peer) c s = (
    record c { active_sockets = (remove peer c.active_sockets).1 },
    sockets.attach_client_logic peer s,
  )

  -- The loop over the peers of a response
  unfoldable pub connect_peers :
      List Peer → TrackerConnection → sockets.State → Reaction sockets.State
  connect_peers [] c s = returns c s
  connect_peers (p ∷ peers) c s =
      let (client, s') = sockets.create_tcp_client p.saddr s in
      let (c', s'') = use_client client c s' in connect_peers peers c' s''

  abbrev pub use_response :
      TrackerConnection → sockets.State → Filled TrackerResponse → Reaction sockets.State
  use_response c s (filled response i) = connect_peers response.peers c s
  use_response c s (raised e) = throws e s
  use_response c s undefined_behaviour = undefined
  use_response c s unfinished = never

  module _ (ss : SubStrings) (inet_ntop : Bytes → Option Bytes)
      (get_sockaddr_in : Bytes → ℕ → Option SockAddr) where
    abbrev pub use_tokens :
        TrackerConnection → sockets.State → Bytes → Parsed ss.SubString → Reaction sockets.State
    use_tokens c s body (done tokens offset) =
        use_response c s (respond ss inet_ntop get_sockaddr_in tokens body)
    use_tokens c s body (failed e) = throws (runtime_error e) s
    use_tokens c s body out_of_fuel = never

    abbrev pub use_body :
        TrackerConnection → sockets.State → Bytes → Option ℕ → Reaction sockets.State
    use_body c s buffer none = returns c s
    use_body c s buffer (some delim) =
        use_tokens c s (drop delim buffer) (parse ss.set (drop delim buffer))

    -- A full buffer has no place for the 0 behind its bytes.
    abbrev pub use_buffer : TrackerConnection → Received sockets.State → Reaction sockets.State
    use_buffer c receiving = never
    use_buffer c (received buffer s) =
        if leb 50000 (length buffer) then undefined else use_body c s buffer (header_end buffer)

    abbrev pub read_in :
        ConnectionState → TrackerConnection → sockets.State → Reaction sockets.State
    read_in wait_for_write c s = returns c s
    read_in wait_for_read c s = use_buffer c (receive_all s)

    unfoldable pub on_read : TrackerConnection → sockets.State → Reaction sockets.State
    unfolding receive_all
    on_read c s = read_in c.state c s

  abbrev pub request : Url → Bytes
  request url =
      codes "GET /"
      ++ take (length url.tail - 1) url.tail
      ++ codes " HTTP/1.1\r\nHost: "
      ++ url.host
      ++ codes ":"
      ++ url.port
      ++ codes "\r\nAccept: */*\r\nUser-Agent: asdf\r\nConnection: close\r\n\r\n"

  unfoldable pub on_write : TrackerConnection → sockets.State → Reaction sockets.State
  on_write c s = elim c.state [
    | wait_for_read ↦ returns c s
    | wait_for_write ↦
        returns (record c { state = wait_for_read }) (sockets.write (request c.url) s)
  ]

  unfoldable pub on_close : TrackerConnection → sockets.State → Reaction sockets.State
  on_close c s =
      returns (record c { active_sockets = (remove (sockets.remote_ip s) c.active_sockets).1 }) s

  unfoldable pub on_rearm : TrackerConnection → sockets.State → Reaction sockets.State
  on_rearm c s = elim c.state [
    | wait_for_write ↦ returns c (sockets.add_to_poller_write s)
    | wait_for_read ↦ returns c (sockets.add_to_poller_read s)
  ]
