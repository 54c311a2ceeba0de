-- ===== src/PeerProtocol/Acting.antt =====
-- m_state of a connection under each handler of PeerProtocol.
use torrent_client.Base.{
  ℕ, zero, suc, ◌≡◌, refl, ◌+◌, ◌/◌, ◌^◌, subst, ◌∙◌, List, Option, none, some, Bool, true, false,
  ltb, ◌==◌, inl, inr, Bool-cases, Outcome, ok, throws, undefined, ◌>>=◌, arith, minus_one, length,
}
use torrent_client.Platform.{Platform}
use torrent_client.Messages.{ntohl_at}
use torrent_client.Piece.{Piece, Buffer}
use torrent_client.Piece
use torrent_client.Files.{File}
use torrent_client.PeerProtocol.{
  PeerProtocol, State, request_blocks, request_block, create_request, attempts, take_piece,
  put_back, chosen_piece, request_if, next_piece,
}
use torrent_client.PeerProtocol.Bits.{next_piece-cases}
use torrent_client.PeerProtocol.Handlers.{
  dispatch, process_choke, process_have, process_bitfield, process_piece, add_bytes, finish_piece,
  finish_if_full, store_files, write_buffer, store_piece,
}

module _ (P : Platform) where
  abbrev pub KeepsState : State → Outcome (PeerProtocol P) → Type 0
  KeepsState t (ok s) = s.state ≡ t
  KeepsState t (throws e s) = s.state ≡ t
  KeepsState t undefined = Unit {0}

  request_blocks-state : (n : ℕ) (s : PeerProtocol P) → (request_blocks P n s).state ≡ s.state
  unfolding request_blocks request_block
  request_blocks-state zero s = refl
  request_blocks-state (suc n) s = ground (arith, request_blocks-state n (request_block P s))

  attempts-state : (n : ℕ) (s : PeerProtocol P) → (attempts P n s).state ≡ s.state
  unfolding attempts take_piece put_back
  attempts-state zero s = refl
  attempts-state (suc n) s = ground (arith, attempts-state n (put_back P (take_piece P s)))

  create_request-state : (s : PeerProtocol P) → (create_request P s).state ≡ s.state
  unfolding create_request
  create_request-state s =
      request_blocks-state (s.piece_size / 2 ^ 14 + 1) (record s { offset = 0 })

  request_if-state : (r : Bool × PeerProtocol P) → (request_if P r).state ≡ r.1.state
  request_if-state (true, s) = create_request-state s
  request_if-state (false, s) = refl

  chosen_piece-state : (s : PeerProtocol P) → (chosen_piece P s).1.state ≡ s.state
  unfolding chosen_piece
  chosen_piece-state s = elim (Bool-cases ((attempts P 20 s).piece_size == 0)) [
    | inl t ↦ rw t (attempts-state 20 s)
    | inr t ↦ rw t (attempts-state 20 s)
  ]

  next_piece-KeepsState : (s : PeerProtocol P) → KeepsState s.state (next_piece P s)
  next_piece-KeepsState s =
      next_piece-cases P (KeepsState s.state) s (λ l. tt)
        (request_if-state (chosen_piece P s) ∙ chosen_piece-state s)

  KeepsState-bind :
      (t : State) (o : Outcome (PeerProtocol P)) (f : PeerProtocol P → Outcome (PeerProtocol P))
      → KeepsState t o
      → ((s : PeerProtocol P) → s.state ≡ t → KeepsState t (f s))
      → KeepsState t (o >>= f)
  KeepsState-bind t (ok s) f h k = k s h
  KeepsState-bind t (throws e s) f h k = h
  KeepsState-bind t undefined f h k = tt

  store_files-KeepsState :
      (s : PeerProtocol P) (o : Outcome (List (File P))) → KeepsState s.state (store_files P s o)
  store_files-KeepsState s (ok fs) = refl
  store_files-KeepsState s (throws e fs) = refl
  store_files-KeepsState s undefined = tt

  store_piece-KeepsState :
      (s : PeerProtocol P) (o : Outcome Piece) → KeepsState s.state (store_piece P s o)
  store_piece-KeepsState s (ok p) = refl
  store_piece-KeepsState s (throws e p) = refl
  store_piece-KeepsState s undefined = tt

  write_buffer-KeepsState :
      (s : PeerProtocol P) (b : Option Buffer) → KeepsState s.state (write_buffer P s b)
  write_buffer-KeepsState s none = tt
  write_buffer-KeepsState s (some m) = store_files-KeepsState s _

  finish_piece-KeepsState : (s : PeerProtocol P) → KeepsState s.state (finish_piece P s)
  unfolding finish_piece
  finish_piece-KeepsState s =
      KeepsState-bind s.state _ _
        (write_buffer-KeepsState (record s { piece = (Piece.get s.piece).1 }) (Piece.get s.piece).0)
        λ s' h.
          let left = record s' { offset = 0; piece_index = minus_one } in
          subst (λ t. KeepsState t (next_piece P left)) h (next_piece-KeepsState left)

  finish_if_full-KeepsState : (s : PeerProtocol P) → KeepsState s.state (finish_if_full P s)
  unfolding finish_if_full
  finish_if_full-KeepsState s = elim (Bool-cases (Piece.full s.piece)) [
    | inl t ↦ rw t (finish_piece-KeepsState s)
    | inr t ↦ rw t refl
  ]

  add_and_finish-KeepsState :
      (frame : List ℕ) (s : PeerProtocol P)
      → KeepsState s.state (add_bytes P frame s >>= finish_if_full P)
  unfolding add_bytes
  add_and_finish-KeepsState frame s =
      KeepsState-bind s.state _ _ (store_piece-KeepsState s _)
        λ s' h. subst (λ t. KeepsState t (finish_if_full P s')) h (finish_if_full-KeepsState s')

  process_piece-KeepsState :
      (frame : List ℕ) (s : PeerProtocol P) → KeepsState s.state (process_piece P frame s)
  unfolding process_piece
  process_piece-KeepsState frame s = elim (Bool-cases (ltb (length frame) 9)) [
    | inl t ↦ rw t tt
    | inr t ↦ rw t (elim (Bool-cases (ntohl_at frame 5 == s.piece_index)) [
      | inr u ↦ rw u refl
      | inl u ↦ rw u (elim (Bool-cases (ltb (length frame) 13)) [
        | inl v ↦ rw v tt
        | inr v ↦ rw v (add_and_finish-KeepsState frame s)
      ])
    ])
  ]

  process_choke-state : (s : PeerProtocol P) → (process_choke P s).state ≡ s.state
  unfolding process_choke
  process_choke-state s = refl

  process_bitfield-state :
      (frame : List ℕ) (s : PeerProtocol P) → (process_bitfield P frame s).state ≡ s.state
  unfolding process_bitfield
  process_bitfield-state frame s = refl

  process_have-KeepsState :
      (frame : List ℕ) (s : PeerProtocol P) → KeepsState s.state (process_have P frame s)
  unfolding process_have
  process_have-KeepsState frame s = elim (Bool-cases (ltb (length frame) 9)) [
    | inl t ↦ rw t tt
    | inr t ↦ rw t (elim (Bool-cases (P.has (ntohl_at frame 5) s.clients_pieces)) [
      | inl u ↦ rw u refl
      | inr u ↦ rw u tt
    ])
  ]

  pub dispatch-KeepsState :
      (id : ℕ) (frame : List ℕ) (s : PeerProtocol P) → KeepsState s.state (dispatch P id frame s)
  unfolding dispatch
  dispatch-KeepsState id frame s = elim (Bool-cases (id == 0)) [
    | inl t ↦ rw t (process_choke-state s)
    | inr t ↦ rw t (elim (Bool-cases (id == 1)) [
      | inl t ↦ rw t (next_piece-KeepsState s)
      | inr t ↦ rw t (elim (Bool-cases (id == 4)) [
        | inl t ↦ rw t (process_have-KeepsState frame s)
        | inr t ↦ rw t (elim (Bool-cases (id == 5)) [
          | inl t ↦ rw t (process_bitfield-state frame s)
          | inr t ↦ rw t (elim (Bool-cases (id == 7)) [
            | inl t ↦ rw t (process_piece-KeepsState frame s)
            | inr t ↦ rw t (elim (Bool-cases (ltb id 10)) [ inl t ↦ rw t refl | inr t ↦ rw t refl ])
          ])
        ])
      ])
    ])
  ]
