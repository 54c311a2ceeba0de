-- ===== src/PeerProtocol/Keeping.antt =====
-- What process_message keeps true of the index of a connection's piece and of the list of pieces: a
-- rule for whatever each get_piece, each return_piece and each loss of the index keeps.
use torrent_client.Base.{
  ℕ, zero, suc, ◌+◌, ◌/◌, subst, sym, inl, inr, List, Option, none, some, Bool, true, false,
  Bool-cases, ltb, ◌==◌, minus_one, Outcome, ok, throws, undefined, ◌>>=◌, get_or, drop, length,
}
use torrent_client.Platform.{Platform}
use torrent_client.Messages.{ntohl_at}
use torrent_client.Piece.{Piece, Buffer}
use torrent_client.Piece
use torrent_client.PieceList.{PieceList, get_piece, return_piece}
use torrent_client.Files.{File}
use torrent_client.PeerProtocol.{
  PeerProtocol, State, handshaking, acting, attempts, take_piece, put_back, wants, chosen_piece,
  request_blocks, create_request, request_if, next_piece, block_size, create_interested,
}
use torrent_client.PeerProtocol.Bits.{next_piece-cases}
use torrent_client.PeerProtocol.Handlers.{
  dispatch, process_choke, process_have, process_bitfield, process_piece, add_bytes, finish_piece,
  finish_if_full, store_files, write_buffer, store_piece, Progress, continue, process_frames,
  process_message, start_from, counted,
}
use torrent_client.PeerProtocol.Requests.{request_blocks-only}
use torrent_client.PeerProtocol.Content.Frames.{state_of}
use torrent_client.PeerProtocol.Framing.{
  short, keeps_alive, partial, whole, begins, frames_short, frames_keep_alive, frames_partial,
  frames_whole,
}

module _ (P : Platform) (I : ℕ → PieceList → Type 0)
    (loses : (i : ℕ) (l : PieceList) → I i l → I minus_one l)
    (gives : (i : ℕ) (l : PieceList) → I i l → I minus_one (return_piece i l))
    (takes : (i : ℕ) (l : PieceList) → I i l → I (get_piece l).piece_index (get_piece l).rest) where
  abbrev On : PeerProtocol P → Type 0
  On s = I s.piece_index s.piece_list

  abbrev pub Kept : Outcome (PeerProtocol P) → Type 0
  Kept (ok s) = On s
  Kept (throws e s) = On s
  Kept undefined = Unit {0}

  Kept-bind :
      (o : Outcome (PeerProtocol P)) (f : PeerProtocol P → Outcome (PeerProtocol P))
      → Kept o
      → ((s : PeerProtocol P) → On s → Kept (f s))
      → Kept (o >>= f)
  Kept-bind (ok s) f h k = k s h
  Kept-bind (throws e s) f h k = h
  Kept-bind undefined f h k = tt

  attempts-On : (n : ℕ) (s : PeerProtocol P) → On s → On (attempts P n s)
  unfolding attempts take_piece put_back
  attempts-On zero s h = h
  attempts-On (suc n) s h = elim (Bool-cases (wants P (take_piece P s))) [
    | inl t ↦ rw t (takes s.piece_index s.piece_list h)
    | inr t ↦ rw t (
        attempts-On n (put_back P (take_piece P s)) (
          gives (get_piece s.piece_list).piece_index (get_piece s.piece_list).rest
            (takes s.piece_index s.piece_list h)))
  ]

  chosen_piece-On : (s : PeerProtocol P) → On s → On (chosen_piece P s).1
  unfolding chosen_piece
  chosen_piece-On s h = elim (Bool-cases ((attempts P 20 s).piece_size == 0)) [
    | inl t ↦ rw t (attempts-On 20 s h)
    | inr t ↦ rw t (attempts-On 20 s h)
  ]

  request_blocks-On : (n : ℕ) (s : PeerProtocol P) → On s → On (request_blocks P n s)
  request_blocks-On n s h = let (o, (m, e)) = request_blocks-only P n s in subst On (sym e) h

  create_request-On : (s : PeerProtocol P) → On s → On (create_request P s)
  unfolding create_request
  create_request-On s h =
      request_blocks-On (s.piece_size / block_size + 1) (record s { offset = 0 }) h

  request_if-On : (r : Bool × PeerProtocol P) → On r.1 → On (request_if P r)
  request_if-On (true, s) h = create_request-On s h
  request_if-On (false, s) h = h

  next_piece-Kept : (s : PeerProtocol P) → On s → Kept (next_piece P s)
  next_piece-Kept s h =
      next_piece-cases P Kept s (λ l. tt) (request_if-On (chosen_piece P s) (chosen_piece-On s h))

  store_files-Kept :
      (s : PeerProtocol P) (o : Outcome (List (File P))) → On s → Kept (store_files P s o)
  store_files-Kept s (ok fs) h = h
  store_files-Kept s (throws e fs) h = h
  store_files-Kept s undefined h = tt

  store_piece-Kept : (s : PeerProtocol P) (o : Outcome Piece) → On s → Kept (store_piece P s o)
  store_piece-Kept s (ok p) h = h
  store_piece-Kept s (throws e p) h = h
  store_piece-Kept s undefined h = tt

  write_buffer-Kept : (s : PeerProtocol P) (b : Option Buffer) → On s → Kept (write_buffer P s b)
  write_buffer-Kept s none h = tt
  write_buffer-Kept s (some m) h = store_files-Kept s _ h

  finish_piece-Kept : (s : PeerProtocol P) → On s → Kept (finish_piece P s)
  unfolding finish_piece
  finish_piece-Kept s h =
      Kept-bind _ _
        (write_buffer-Kept (record s { piece = (Piece.get s.piece).1 }) (Piece.get s.piece).0 h)
        (λ s' h'.
          next_piece-Kept (record s' { offset = 0; piece_index = minus_one })
            (loses s'.piece_index s'.piece_list h'))

  finish_if_full-Kept : (s : PeerProtocol P) → On s → Kept (finish_if_full P s)
  unfolding finish_if_full
  finish_if_full-Kept s h = elim (Bool-cases (Piece.full s.piece)) [
    | inl t ↦ rw t (finish_piece-Kept s h)
    | inr t ↦ rw t h
  ]

  process_piece-Kept : (frame : List ℕ) (s : PeerProtocol P) → On s → Kept (process_piece P frame s)
  unfolding process_piece add_bytes
  process_piece-Kept frame s h = elim (Bool-cases (ltb (length frame) 9)) [
    | inl t ↦ rw t tt
    | inr t ↦ rw t (elim (Bool-cases (ntohl_at frame 5 == s.piece_index)) [
      | inr u ↦ rw u h
      | inl u ↦ rw u (elim (Bool-cases (ltb (length frame) 13)) [
        | inl v ↦ rw v tt
        | inr v ↦ rw v (Kept-bind _ _ (store_piece-Kept s _ h) finish_if_full-Kept)
      ])
    ])
  ]

  process_have-Kept : (frame : List ℕ) (s : PeerProtocol P) → On s → Kept (process_have P frame s)
  unfolding process_have
  process_have-Kept frame s h = elim (Bool-cases (ltb (length frame) 9)) [
    | inl t ↦ rw t tt
    | inr t ↦ rw t (elim (Bool-cases (P.has (ntohl_at frame 5) s.clients_pieces)) [
      | inl u ↦ rw u h
      | inr u ↦ rw u tt
    ])
  ]

  dispatch-Kept :
      (id : ℕ) (frame : List ℕ) (s : PeerProtocol P) → On s → Kept (dispatch P id frame s)
  unfolding dispatch process_choke process_bitfield create_interested
  dispatch-Kept id frame s h = elim (Bool-cases (id == 0)) [
    | inl t ↦ rw t (gives s.piece_index s.piece_list h)
    | inr t ↦ rw t (elim (Bool-cases (id == 1)) [
      | inl t ↦ rw t (next_piece-Kept s h)
      | inr t ↦ rw t (elim (Bool-cases (id == 4)) [
        | inl t ↦ rw t (process_have-Kept frame s h)
        | inr t ↦ rw t (elim (Bool-cases (id == 5)) [
          | inl t ↦ rw t h
          | inr t ↦ rw t (elim (Bool-cases (id == 7)) [
            | inl t ↦ rw t (process_piece-Kept frame s h)
            | inr t ↦ rw t (elim (Bool-cases (ltb id 10)) [ inl t ↦ rw t h | inr t ↦ rw t h ])
          ])
        ])
      ])
    ])
  ]

  continue-Kept :
      (o : Outcome (PeerProtocol P)) (rest : List ℕ) (next : PeerProtocol P → Outcome (Progress P))
      → Kept o
      → ((s : PeerProtocol P) → On s → Kept (state_of P (next s)))
      → Kept (state_of P (continue P o rest next))
  continue-Kept (ok s) rest next h k = k s h
  continue-Kept (throws e s) rest next h k = h
  continue-Kept undefined rest next h k = tt

  frames-Kept :
      (fuel : ℕ) (rest : List ℕ) (s : PeerProtocol P)
      → On s
      → Kept (state_of P (process_frames P fuel rest s))
  unfolding process_frames
  frames-Kept zero rest s h = h
  frames-Kept (suc fuel) rest s h = elim (begins rest) [
    | short a ↦ rw (frames_short P fuel rest s a) h
    | keeps_alive a b ↦
        rw (frames_keep_alive P fuel rest s a b) (frames-Kept fuel (drop 4 rest) s h)
    | partial a b c ↦ rw (frames_partial P fuel rest s a b c) h
    | whole a b c ↦ rw (frames_whole P fuel rest s a b c) (
        continue-Kept _ rest _ (dispatch-Kept (get_or rest 4 0) _ s h)
          (λ s' h'. frames-Kept fuel (drop (ntohl_at rest 0 + 4) rest) s' h'))
  ]

  counted-Kept :
      (n : ℕ) (o : Outcome (Progress P)) → Kept (state_of P o) → Kept (state_of P (counted P n o))
  counted-Kept n (ok (s, rest)) h = h
  counted-Kept n (throws e (s, rest)) h = h
  counted-Kept n undefined h = h

  start_from-Kept :
      (t : State) (received : List ℕ) (s : PeerProtocol P)
      → On s
      → Kept (state_of P (start_from P t received s))
  start_from-Kept acting received s h = frames-Kept (length received + 1) received s h
  start_from-Kept handshaking received s h = elim (Bool-cases (ltb (length received) 68)) [
    | inl t ↦ rw t h
    | inr t ↦
        rw t (frames-Kept (length received + 1) (drop 68 received) (record s { state = acting }) h)
  ]

  pub process_message-Kept :
      (received : List ℕ) (s : PeerProtocol P)
      → On s
      → Kept (state_of P (process_message P received s))
  unfolding process_message
  process_message-Kept received s h =
      counted-Kept (length received) _ (start_from-Kept s.state received s h)
