-- ===== src/TrackerConnection/Clients.antt =====
-- on_read of init_http_request.cpp on a whole answer of a tracker.
use torrent_client.Base.{
  ℕ, zero, suc, ◌+◌, ◌-◌, ◌/◌, ◌%◌, ◌^◌, ◌≤◌, ◌<◌, ◌≡◌, refl, sym, ap, subst, ◌∙◌, Bytes, List, [],
  ◌∷◌, ◌++◌, append_assoc, append-nil, Option, none, some, leb, ◌==◌, take, drop, drop-append,
  drop_all, length, length-append, false, arith,
}
use torrent_client.BeParser.Encoding.{encode}
use torrent_client.SubStrings.{SubStrings}
use torrent_client.TrackerResponse.{SockAddr}
use torrent_client.ActiveSockets.{LightPeerInfo, ActiveSockets, remove}
use torrent_client.TrackerResponse.Encoded.{answer, respond-encode}
use torrent_client.TrackerResponse.Peers.{Endpoint, address, peers_at}
use torrent_client.TrackerConnection.{
  Sockets, wait_for_read, TrackerConnection, Reaction, returns, received, receive, receive_all,
  connect_peers, use_body, read_in, on_read,
}
use torrent_client.TrackerConnection.Header.{AreLines, http_header, header_end-header}

abbrev pub joined : List Bytes → Bytes
joined [] = []
joined (b ∷ bs) = b ++ joined bs

abbrev pub saddr_of : Endpoint → SockAddr
saddr_of e = record {
  sin_family = 2;
  s_addr = address e;
  sin_port = e.port / 256 ∷ e.port % 256 ∷ [];
}

module _ (sockets : Sockets) where
  -- A socket for each of the addresses, in order: where one is made, its peer leaves the set of
  -- active sockets, and it gets its callbacks.
  pub data Connects
      : List Endpoint → ActiveSockets → sockets.State → ActiveSockets → sockets.State → Type 0 where
    all_tried : (a : ActiveSockets) (s : sockets.State) → Connects [] a s a s
    refused :
        {e : Endpoint} {es : List Endpoint} {a b : ActiveSockets} {s t u : sockets.State}
        → sockets.create_tcp_client (saddr_of e) s ≡ (none, t)
        → Connects es a t b u
        → Connects (e ∷ es) a s b u
    connected :
        {e : Endpoint} {es : List Endpoint} {a b : ActiveSockets} {s t u : sockets.State}
        (peer : LightPeerInfo)
        → sockets.create_tcp_client (saddr_of e) s ≡ (some peer, t)
        → Connects es (remove peer a).1 (sockets.attach_client_logic peer t) b u
        → Connects (e ∷ es) a s b u

  -- How on_read ends when it has tried all the addresses.
  abbrev pub EndsConnected :
      List Endpoint → TrackerConnection → sockets.State → Reaction sockets.State → Type 0
  EndsConnected es c s r =
      (b : ActiveSockets) × ((t : sockets.State) × ((r
            ≡ returns (record c { active_sockets = b }) t)
          × Connects es c.active_sockets s b t))

  connect_peers-tried :
      (text_of : Bytes → Bytes) (e : Endpoint) (es : List Endpoint) (c : TrackerConnection)
      (s : sockets.State) (r : Option LightPeerInfo × sockets.State)
      → sockets.create_tcp_client (saddr_of e) s ≡ r
      → ((c : TrackerConnection) (s : sockets.State)
          → EndsConnected es c s (connect_peers sockets (peers_at text_of es) c s))
      → EndsConnected (e ∷ es) c s (connect_peers sockets (peers_at text_of (e ∷ es)) c s)
  unfolding connect_peers
  connect_peers-tried text_of e es c s (none, t) made rest =
      let (b, (u, (done, all))) = rest c t in
      (b, (u, (rw (connect_peers, made) done, refused made all)))
  connect_peers-tried text_of e es c s (some peer, t) made rest =
      let (b, (u, (done, all))) =
        rest (record c { active_sockets = (remove peer c.active_sockets).1 })
          (sockets.attach_client_logic peer t) in
      (b, (u, (rw (connect_peers, made) done, connected peer made all)))

  connect_peers-Connects :
      (text_of : Bytes → Bytes) (es : List Endpoint) (c : TrackerConnection) (s : sockets.State)
      → EndsConnected es c s (connect_peers sockets (peers_at text_of es) c s)
  unfolding connect_peers
  connect_peers-Connects text_of [] c s = (c.active_sockets, (s, (refl, all_tried _ s)))
  connect_peers-Connects text_of (e ∷ es) c s =
      connect_peers-tried text_of e es c s (sockets.create_tcp_client (saddr_of e) s) refl
        (connect_peers-Connects text_of es)

  -- The reads of a socket, with that many bytes received before: each of these, none of them empty,
  -- and then nothing.
  abbrev pub Delivers : ℕ → List Bytes → sockets.State → sockets.State → Type 0
  Delivers before [] s s' = sockets.read (50000 - before) s ≡ ([], s')
  Delivers before (b ∷ bs) s s' =
      (0 < length b)
      × ((t : sockets.State) × ((sockets.read (50000 - before) s ≡ (b, t))
            × Delivers (before + length b) bs t s'))

  receive-Delivers :
      (bs : List Bytes) (fuel : ℕ) (buffer : Bytes) (s s' : sockets.State)
      → length (joined bs) < fuel
      → Delivers (length buffer) bs s s'
      → receive sockets fuel buffer s ≡ received (buffer ++ joined bs) s'
  unfolding receive
  receive-Delivers bs zero buffer s s' l h = absurd (omega arith)
  receive-Delivers [] (suc fuel) buffer s s' l h = rw (h, append-nil buffer) refl
  receive-Delivers (b ∷ bs) (suc fuel) buffer s s' l (n, (t, (e, h))) =
      let some_bytes : (length b == 0) ≡ false = ground arith in
      rw (e, some_bytes)
        (receive-Delivers bs fuel (buffer ++ b) t s'
            (omega (arith, n, l, length-append b (joined bs)))
            (subst (λ k. Delivers k bs t s') (sym (length-append buffer b)) h)
          ∙ ap (λ all. received all s') (append_assoc buffer b (joined bs)))

not_full : (n : ℕ) → n < 50000 → leb 50000 n ≡ false
not_full n l = ground arith

drop-header : (header body : Bytes) → drop (length header) (header ++ body) ≡ body
drop-header header body =
    drop-append (length header) header body (omega arith)
    ∙ ap (λ t. t ++ body) (drop_all (length header) header (omega arith))

module _ (sockets : Sockets) (ss : SubStrings) (text_of : Bytes → Bytes)
    (get_sockaddr_in : Bytes → ℕ → Option SockAddr)
    (starts : (from to : ℕ) → ss.start (ss.set from to) ≡ from)
    (lengths : (from to : ℕ) → from ≤ to → ss.length (ss.set from to) ≡ to - from)
    (texts : (from to : ℕ) (source : Bytes)
      → from ≤ to
      → ss.str (ss.set from to) source ≡ take (to - from) (drop from source))
    (interval : ℕ) (e : Endpoint) (es : List Endpoint) where
  abbrev body : Bytes
  body = encode (answer interval (e ∷ es))

  use_body-answer :
      (c : TrackerConnection) (s : sockets.State) (header : Bytes)
      → length body < 50000
      → interval < 2 ^ 63
      → use_body sockets ss
          (λ bytes. some (text_of bytes))
          get_sockaddr_in
          c
          s
          (header ++ body)
          (some (length header))
        ≡ connect_peers sockets (peers_at text_of (e ∷ es)) c s
  use_body-answer c s header l i =
      let (all, (parsed, made)) =
        respond-encode ss text_of get_sockaddr_in starts lengths texts interval e es
          (omega (arith, l)) i in
      rw (drop-header header body, parsed, made) refl

  read_in-answer :
      (c : TrackerConnection) (s s' : sockets.State) (l : Bytes) (ls reads : List Bytes)
      → AreLines (l ∷ ls)
      → interval < 2 ^ 63
      → joined reads ≡ http_header (l ∷ ls) ++ body
      → length (joined reads) < 50000
      → Delivers sockets 0 reads s s'
      → read_in sockets ss (λ bytes. some (text_of bytes)) get_sockaddr_in wait_for_read c s
        ≡ connect_peers sockets (peers_at text_of (e ∷ es)) c s'
  unfolding receive_all
  read_in-answer c s s' l ls reads lines i parts small given =
      let header = http_header (l ∷ ls) in
      let read_all = receive-Delivers sockets reads 50001 [] s s' (omega (arith, small)) given in
      let size = ap length parts in
      rw
        (
          read_all,
          parts,
          not_full (length (header ++ body)) (omega (arith, small, size)),
          header_end-header l ls body lines,
        )
        (use_body-answer c s' header (omega (arith, small, size, length-append header body)) i)

  -- A tracker answers with a header of one line or more and an empty line, and with the bencoding of
  -- an interval below 2^63 and of one peer or more in the compact form, in all less than 50000
  -- bytes. However the reads of the socket cut the answer, on_read returns, when it has asked for a
  -- socket for the address of each of these peers, in order, and for no other. Where one is made, it
  -- gets its callbacks, and its peer leaves the set of active sockets; nothing else of the
  -- connection has changed. inet_ntop gives a text for every address; SubString gives back the start
  -- of its place, its length, and the bytes of the text in it.
  pub on_read-Connects :
      (c : TrackerConnection) (s s' : sockets.State) (l : Bytes) (ls reads : List Bytes)
      → c.state ≡ wait_for_read
      → AreLines (l ∷ ls)
      → interval < 2 ^ 63
      → joined reads ≡ http_header (l ∷ ls) ++ encode (answer interval (e ∷ es))
      → length (joined reads) < 50000
      → Delivers sockets 0 reads s s'
      → EndsConnected sockets
          (e ∷ es)
          c
          s'
          (on_read sockets ss (λ bytes. some (text_of bytes)) get_sockaddr_in c s)
  unfolding on_read
  on_read-Connects c s s' l ls reads waits lines i parts small given =
      let reads_in = read_in-answer c s s' l ls reads lines i parts small given in
      subst
        (λ state.
          EndsConnected sockets (e ∷ es) c s'
            (read_in sockets ss (λ bytes. some (text_of bytes)) get_sockaddr_in state c s))
        (sym waits)
        (subst (EndsConnected sockets (e ∷ es) c s') (sym reads_in)
          (connect_peers-Connects sockets text_of (e ∷ es) c s'))
