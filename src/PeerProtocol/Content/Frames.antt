-- ===== src/PeerProtocol/Content/Frames.antt =====
-- process_message with the messages of an honest peer.
use torrent_client.Base.{
  ℕ, zero, suc, ◌+◌, ◌≤◌, ◌<◌, refl, inl, inr, List, Bool-cases, ltb, ge→ltb, ltb→lt, ltb→ge, ◌==◌,
  ==_iff, arith, Outcome, ok, throws, undefined, drop, length, length-drop,
}
use torrent_client.Platform.{Platform}
use torrent_client.Messages.{ntohl_at}
use torrent_client.Files.{File}
use torrent_client.PeerProtocol.{PeerProtocol, State, handshaking, acting, create_interested}
use torrent_client.PeerProtocol.Handlers.{
  dispatch, process_choke, process_have, process_bitfield, Progress, continue, process_frames,
  process_message, start_from, counted,
}
use torrent_client.PeerProtocol.Framing.{
  IsIncomplete, frames_short, frames_keep_alive, frames_partial, frames_whole,
}
use torrent_client.PeerProtocol.Content.{
  Torrent, Fits, IsKnown, Works, Keeps, Ends, IsGenuine, AreGenuine, ends, keeps_alive, whole,
  messages_in,
}
use torrent_client.PeerProtocol.Content.Picking.{
  next_piece-Ends, return_piece-IsStocked, Works-elsewhere,
}
use torrent_client.PeerProtocol.Content.Storing.{process_piece-Ends}

module _ (P : Platform) where
  -- The state of an outcome that comes with something else.
  abbrev pub state_of : {A : Type 0} → Outcome (PeerProtocol P × A) → Outcome (PeerProtocol P)
  state_of (ok (s, a)) = ok s
  state_of (throws e (s, a)) = throws e s
  state_of undefined = undefined

module _ (P : Platform) (torrent : Torrent) (fits : Fits torrent) where
  Works-IsKnown : (s : PeerProtocol P) → Works P torrent s → IsKnown P torrent s.piece_index
  Works-IsKnown s (inl w) = inr w.no_index
  Works-IsKnown s (inr w) = w.known

  process_choke-Keeps :
      (fs : List (File P)) (s : PeerProtocol P)
      → Keeps P torrent fs s
      → Keeps P torrent fs (process_choke P s)
  unfolding process_choke
  process_choke-Keeps fs s k = record {
    works = inl (record { no_size = refl; no_index = refl });
    stocked =
        return_piece-IsStocked P torrent s.piece_index s.piece_list (Works-IsKnown s k.works)
          k.stocked;
    saves = k.saves;
  }

  process_have-Ends :
      (fs : List (File P)) (frame : List ℕ) (s : PeerProtocol P)
      → 9 ≤ length frame
      → Keeps P torrent fs s
      → Ends P torrent fs (process_have P frame s)
  unfolding process_have
  process_have-Ends fs frame s l k =
      rw (ge→ltb _ _ l) (elim (Bool-cases (P.has (ntohl_at frame 5) s.clients_pieces)) [
        | inr t ↦ rw t (inr (s.clients_pieces, (ntohl_at frame 5, t)))
        | inl t ↦ rw t (record {
          works =
              Works-elsewhere P torrent s s.state (P.mark (ntohl_at frame 5) s.clients_pieces)
                s.offset s.files s.piece_list s.messages k.works;
          stocked = k.stocked;
          saves = k.saves;
        })
      ])

  process_bitfield-Keeps :
      (fs : List (File P)) (frame : List ℕ) (s : PeerProtocol P)
      → Keeps P torrent fs s
      → Keeps P torrent fs (process_bitfield P frame s)
  unfolding process_bitfield create_interested
  process_bitfield-Keeps fs frame s k = record {
    works = Works-elsewhere P torrent s s.state _ s.offset s.files s.piece_list _ k.works;
    stocked = k.stocked;
    saves = k.saves;
  }

  dispatch-Ends :
      (fs : List (File P)) (id : ℕ) (frame : List ℕ) (s : PeerProtocol P)
      → IsGenuine P torrent id frame
      → Keeps P torrent fs s
      → Ends P torrent fs (dispatch P id frame s)
  unfolding dispatch
  dispatch-Ends fs id frame s g k = elim (Bool-cases (id == 0)) [
    | inl t ↦ rw t (process_choke-Keeps fs s k)
    | inr t ↦ rw t (elim (Bool-cases (id == 1)) [
      | inl t ↦ rw t (next_piece-Ends P torrent fits fs s k.stocked k.saves)
      | inr t ↦ rw t (elim (Bool-cases (id == 4)) [
        | inl t ↦ rw t (process_have-Ends fs frame s (g.0 ((==_iff _ _).0 t)) k)
        | inr t ↦ rw t (elim (Bool-cases (id == 5)) [
          | inl t ↦ rw t (process_bitfield-Keeps fs frame s k)
          | inr t ↦ rw t (elim (Bool-cases (id == 7)) [
            | inl t ↦ rw t (process_piece-Ends P torrent fits fs frame s (g.1 ((==_iff _ _).0 t)) k)
            | inr t ↦ rw t (elim (Bool-cases (ltb id 10)) [
              | inl t ↦ rw t k
              | inr t ↦ rw t (k.stocked, k.saves)
            ])
          ])
        ])
      ])
    ])
  ]

  continue-Ends :
      (fs : List (File P)) (o : Outcome (PeerProtocol P)) (rest : List ℕ)
      (next : PeerProtocol P → Outcome (Progress P))
      → Ends P torrent fs o
      → ((s : PeerProtocol P) → Keeps P torrent fs s → Ends P torrent fs (state_of P (next s)))
      → Ends P torrent fs (state_of P (continue P o rest next))
  continue-Ends fs (ok s) rest next h k = k s h
  continue-Ends fs (throws e s) rest next h k = h
  continue-Ends fs undefined rest next h k = h

  incomplete-Ends :
      (fs : List (File P)) (fuel : ℕ) (rest : List ℕ) (s : PeerProtocol P)
      → IsIncomplete P rest
      → Keeps P torrent fs s
      → Ends P torrent fs (state_of P (process_frames P (suc fuel) rest s))
  incomplete-Ends fs fuel rest s (inl l) k = rw (frames_short P fuel rest s l) k
  incomplete-Ends fs fuel rest s (inr (n, l)) k = elim (Bool-cases (ltb 4 (length rest))) [
    | inl t ↦ rw (frames_partial P fuel rest s (ltb→lt _ _ t) n l) k
    | inr t ↦ rw (frames_short P fuel rest s (ltb→ge _ _ t)) k
  ]

  frames-Ends :
      (fs : List (File P)) (fuel : ℕ) (received : List ℕ) (s : PeerProtocol P)
      → length received < fuel
      → AreGenuine P torrent received
      → Keeps P torrent fs s
      → Ends P torrent fs (state_of P (process_frames P fuel received s))
  frames-Ends fs zero received s l g k = absurd (omega arith)
  frames-Ends fs (suc fuel) received s l (ends rest i) k = incomplete-Ends fs fuel rest s i k
  frames-Ends fs (suc fuel) received s l (keeps_alive rest a b g) k =
      rw (frames_keep_alive P fuel rest s a b)
        (frames-Ends fs fuel (drop 4 rest) s (omega (arith, length-drop 4 rest)) g k)
  frames-Ends fs (suc fuel) received s l (whole rest a b c m g) k =
      rw (frames_whole P fuel rest s a b c) (
        continue-Ends fs _ rest _ (dispatch-Ends fs _ _ s m k) (λ s' k'.
          frames-Ends fs fuel (drop (ntohl_at rest 0 + 4) rest) s'
            (omega (arith, length-drop (ntohl_at rest 0 + 4) rest)) g k'))

  counted-Ends :
      (fs : List (File P)) (n : ℕ) (o : Outcome (Progress P))
      → Ends P torrent fs (state_of P o)
      → Ends P torrent fs (state_of P (counted P n o))
  counted-Ends fs n (ok (s, rest)) h = h
  counted-Ends fs n (throws e (s, rest)) h = h
  counted-Ends fs n undefined h = h

  start_from-Ends :
      (fs : List (File P)) (t : State) (received : List ℕ) (s : PeerProtocol P)
      → AreGenuine P torrent (messages_in P torrent t received)
      → Keeps P torrent fs s
      → Ends P torrent fs (state_of P (start_from P t received s))
  start_from-Ends fs acting received s g k =
      frames-Ends fs (length received + 1) received s (omega arith) g k
  start_from-Ends fs handshaking received s g k = elim (Bool-cases (ltb (length received) 68)) [
    | inl t ↦ rw t k
    | inr t ↦ rw t (
        frames-Ends fs (length received + 1) (drop 68 received) (record s { state = acting })
          (omega (arith, length-drop 68 received)) g
          (record {
            works =
                Works-elsewhere P torrent s acting s.clients_pieces s.offset s.files s.piece_list
                  s.messages k.works;
            stocked = k.stocked;
            saves = k.saves;
          }))
  ]

  -- For an honest peer and pieces below 2^64 bytes: if a connection works on nothing or on a piece
  -- whose bytes so far are those of the content, then process_message leaves it so, and whatever it
  -- writes to the files is, piece by piece, the content of whole pieces of the torrent. This is so
  -- too when it throws, but for the piece of the connection; its behaviour is undefined only where
  -- that of the write of such a piece is, or if BitSet does not have a bit at every index.
  pub process_message-Ends :
      (fs : List (File P)) (received : List ℕ) (s : PeerProtocol P)
      → AreGenuine P torrent (messages_in P torrent s.state received)
      → Keeps P torrent fs s
      → Ends P torrent fs (state_of P (process_message P received s))
  unfolding process_message
  process_message-Ends fs received s g k =
      counted-Ends fs (length received) _ (start_from-Ends fs s.state received s g k)
