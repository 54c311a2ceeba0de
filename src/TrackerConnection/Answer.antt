-- ===== src/TrackerConnection/Answer.antt =====
-- on_read of init_http_request.cpp ends, whatever the tracker sends.
use torrent_client.Base.{
  ℕ, zero, suc, ◌+◌, ◌-◌, ◌≤◌, ◌<◌, ◌≢◌, inl, inr, Bytes, List, [], ◌∷◌, ◌++◌, Option, none, some,
  leb, ◌==◌, ==→ne, Bool-cases, drop, length, length-append, length-drop, arith,
}
use torrent_client.BeParser.{Parsed, done, failed, out_of_fuel}
use torrent_client.BeParser.Progress.{EndsFrom, parse-EndsFrom}
use torrent_client.SubStrings.{SubStrings}
use torrent_client.TokenListProcessor.{Filled}
use torrent_client.TokenListProcessor.Progress.{FillsFrom, ends, raises, breaks}
use torrent_client.TrackerResponse.{SockAddr, Peer, TrackerResponse}
use torrent_client.TrackerResponse.Progress.{respond-FillsFrom}
use torrent_client.TrackerConnection.{
  Sockets, ConnectionState, wait_for_read, wait_for_write, TrackerConnection, never, Received,
  received, receiving, header_end, receive, connect_peers, use_response, use_tokens, use_body,
  use_buffer, receive_all, read_in, on_read,
}

-- A buffer that holds what was received.
abbrev pub IsReceived : {S : Type 0} → Received S → Type 0
IsReceived (received buffer s) = length buffer ≤ 50000
IsReceived receiving = ⊥

module _ (sockets : Sockets)
    (bounded : (size : ℕ) (s : sockets.State) → length (sockets.read size s).0 ≤ size) where
  receive-IsReceived :
      (fuel : ℕ) (buffer : Bytes) (s : sockets.State)
      → length buffer ≤ 50000
      → 50000 < fuel + length buffer
      → IsReceived (receive sockets fuel buffer s)
  unfolding receive
  receive-IsReceived zero buffer s fits h = absurd (omega arith)
  receive-IsReceived (suc fuel) buffer s fits h =
      let bytes = (sockets.read (50000 - length buffer) s).0 in
      let small = bounded (50000 - length buffer) s in
      elim (Bool-cases (length bytes == 0)) [
        | inl e ↦ rw e fits
        | inr e ↦ rw e (
            receive-IsReceived fuel (buffer ++ bytes) (sockets.read (50000 - length buffer) s).1
              (omega (arith, length-append buffer bytes))
              (omega (arith, length-append buffer bytes, ==→ne _ _ e)))
      ]

  receive_all-IsReceived : (s : sockets.State) → IsReceived (receive_all sockets s)
  unfolding receive_all
  receive_all-IsReceived s = receive-IsReceived 50001 [] s (omega arith) (omega arith)

  connect_peers-ne :
      (peers : List Peer) (c : TrackerConnection) (s : sockets.State)
      → connect_peers sockets peers c s ≢ never
  unfolding connect_peers
  connect_peers-ne [] c s = λ h. cc
  connect_peers-ne (p ∷ peers) c s = connect_peers-ne peers _ _

  use_response-ne :
      (c : TrackerConnection) (s : sockets.State) (r : Filled TrackerResponse)
      → FillsFrom 0 r
      → use_response sockets c s r ≢ never
  use_response-ne c s _ (ends t i l) = connect_peers-ne t.peers c s
  use_response-ne c s _ (raises e) = λ h. cc
  use_response-ne c s _ breaks = λ h. cc

  module _ (ss : SubStrings) (inet_ntop : Bytes → Option Bytes)
      (get_sockaddr_in : Bytes → ℕ → Option SockAddr) where
    use_tokens-ne :
        (c : TrackerConnection) (s : sockets.State) (body : Bytes) (r : Parsed ss.SubString)
        → EndsFrom (length body) r
        → use_tokens sockets ss inet_ntop get_sockaddr_in c s body r ≢ never
    use_tokens-ne c s body (done tokens offset) e =
        use_response-ne c s _ (respond-FillsFrom ss inet_ntop get_sockaddr_in tokens body)
    use_tokens-ne c s body (failed x) e = λ h. cc
    use_tokens-ne c s body out_of_fuel e = absurd e

    use_body-ne :
        (c : TrackerConnection) (s : sockets.State) (buffer : Bytes) (delim : Option ℕ)
        → length buffer ≤ 50000
        → use_body sockets ss inet_ntop get_sockaddr_in c s buffer delim ≢ never
    use_body-ne c s buffer none l = λ h. cc
    use_body-ne c s buffer (some delim) l =
        use_tokens-ne c s (drop delim buffer) _
          (parse-EndsFrom ss.set (drop delim buffer) (omega (arith, length-drop delim buffer)))

    use_buffer-ne :
        (c : TrackerConnection) (r : Received sockets.State)
        → IsReceived r
        → use_buffer sockets ss inet_ntop get_sockaddr_in c r ≢ never
    use_buffer-ne c (received buffer s) l = elim (Bool-cases (leb 50000 (length buffer))) [
      | inl e ↦ rw e (λ h. cc)
      | inr e ↦ rw e (use_body-ne c s buffer (header_end buffer) l)
    ]
    use_buffer-ne c receiving l = absurd l

    read_in-ne :
        (state : ConnectionState) (c : TrackerConnection) (s : sockets.State)
        → read_in sockets ss inet_ntop get_sockaddr_in state c s ≢ never
    read_in-ne wait_for_write c s = λ h. cc
    read_in-ne wait_for_read c s =
        use_buffer-ne c (receive_all sockets s) (receive_all-IsReceived s)

    -- Whatever a tracker sends, in reads of any size up to the one that was asked for, on_read of
    -- its connection ends.
    pub on_read-ends :
        (c : TrackerConnection) (s : sockets.State)
        → on_read sockets ss inet_ntop get_sockaddr_in c s ≢ never
    unfolding on_read
    on_read-ends c s = read_in-ne c.state c s
