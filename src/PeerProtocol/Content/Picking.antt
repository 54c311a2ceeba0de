-- ===== src/PeerProtocol/Content/Picking.antt =====
-- chosen_piece and create_request of a connection: the piece that it starts on is a piece of the
-- torrent, and the files are left alone.
use torrent_client.Base.{
  ℕ, zero, suc, ◌+◌, ◌/◌, ◌<◌, ◌≡◌, refl, sym, subst, ◌∙◌, ◌⊎◌, inl, inr, List, [], ◌∷◌, Bool, true,
  false, Bool-cases, leb, leb→le, ◌++◌, ◌==◌, arith, u64_mod,
}
use torrent_client.Platform.{Platform}
use torrent_client.Piece.{Piece, init, full}
use torrent_client.Piece.Assembly.{init-Holds, init-size}
use torrent_client.PieceList.{PieceList, Given, get_piece, get_piece_from, return_piece}
use torrent_client.Files.{File}
use torrent_client.PeerProtocol.{
  PeerProtocol, State, attempts, take_piece, wants, put_back, chosen_piece, create_request,
  request_if, next_piece, block_size,
}
use torrent_client.PeerProtocol.Requests.{request_blocks-only}
use torrent_client.PeerProtocol.Choosing.{Starts, chosen_piece-Starts}
use torrent_client.PeerProtocol.Bits.{next_piece-cases}
use torrent_client.PeerProtocol.Content.{
  Torrent, Fits, IsKnown, AreKnown, IsStocked, Works, Saves, Keeps, Ends,
}

module _ (P : Platform) (torrent : Torrent) where
  AreKnown-append :
      (is : List ℕ) (i : ℕ)
      → AreKnown P torrent is
      → IsKnown P torrent i
      → AreKnown P torrent (is ++ i ∷ [])
  AreKnown-append [] i h k = (k, tt)
  AreKnown-append (j ∷ is) i h k = (h.0, AreKnown-append is i h.1 k)

  pub return_piece-IsStocked :
      (i : ℕ) (l : PieceList)
      → IsKnown P torrent i
      → IsStocked P torrent l
      → IsStocked P torrent (return_piece i l)
  unfolding return_piece
  return_piece-IsStocked i l k h = record {
    last = h.last;
    sizes = h.sizes;
    known = AreKnown-append l.returned_pieces i h.known k;
  }

  -- A piece of no bytes, or with the size of the torrent's piece; and known.
  abbrev IsFitting : ℕ → ℕ → Type 0
  IsFitting n i = ((n ≡ 0) ⊎ (n ≡ torrent.size i)) × IsKnown P torrent i

  -- A piece that get_piece gives has the size of the torrent's piece.
  IsGiven : Given → Type 0
  IsGiven g = IsFitting g.size g.piece_index × IsStocked P torrent g.rest

  given_from :
      (l : PieceList) (returned : List ℕ)
      → AreKnown P torrent returned
      → IsStocked P torrent l
      → IsGiven (get_piece_from l returned)
  unfolding get_piece_from IsGiven
  given_from l (x ∷ xs) k h =
      ((inr (h.sizes x), k.0), record { last = h.last; sizes = h.sizes; known = k.1 })
  given_from l [] k h = elim (Bool-cases (leb l.next_piece l.max_piece_num)) [
    | inl t ↦
        let within : l.next_piece < torrent.count = omega (arith, leb→le _ _ t, h.last) in
        rw t (
          (inr (h.sizes l.next_piece), inl within),
          record { last = h.last; sizes = h.sizes; known = h.known },
        )
    | inr t ↦ rw t ((inl refl, inr refl), h)
  ]

  given : (l : PieceList) → IsStocked P torrent l → IsGiven (get_piece l)
  unfolding get_piece
  given l h = given_from l l.returned_pieces h.known h

  -- A connection that has looked for a piece, and still has the files.
  IsSupplied : List (File P) → PeerProtocol P → Type 0
  IsSupplied fs s =
      IsFitting s.piece_size s.piece_index × (IsStocked P torrent s.piece_list × (s.files ≡ fs))

  take_piece-IsSupplied :
      (s : PeerProtocol P) → IsStocked P torrent s.piece_list → IsSupplied s.files (take_piece P s)
  unfolding take_piece IsSupplied IsGiven
  take_piece-IsSupplied s h = let (g, r) = given s.piece_list h in (g, (r, refl))

  put_back-IsSupplied :
      (fs : List (File P)) (s : PeerProtocol P) → IsSupplied fs s → IsSupplied fs (put_back P s)
  unfolding put_back IsSupplied
  put_back-IsSupplied fs s (g, (r, e)) =
      ((inl refl, inr refl), (return_piece-IsStocked s.piece_index s.piece_list g.1 r, e))

  attempts-IsSupplied :
      (n : ℕ) (s : PeerProtocol P)
      → IsStocked P torrent s.piece_list
      → IsSupplied s.files (attempts P (suc n) s)
  unfolding attempts IsSupplied
  attempts-IsSupplied zero s h = elim (Bool-cases (wants P (take_piece P s))) [
    | inl t ↦ rw t (take_piece-IsSupplied s h)
    | inr t ↦ rw t (put_back-IsSupplied s.files (take_piece P s) (take_piece-IsSupplied s h))
  ]
  attempts-IsSupplied (suc n) s h = elim (Bool-cases (wants P (take_piece P s))) [
    | inl t ↦ rw t (take_piece-IsSupplied s h)
    | inr t ↦
        let (g, (r, e)) =
          put_back-IsSupplied s.files (take_piece P s) (take_piece-IsSupplied s h) in
        let (g', (r', e')) = attempts-IsSupplied n (put_back P (take_piece P s)) r in
        rw t (g', (r', e' ∙ e))
  ]

  chosen_piece-IsSupplied :
      (s : PeerProtocol P)
      → IsStocked P torrent s.piece_list
      → IsSupplied s.files (chosen_piece P s).1
  unfolding chosen_piece IsSupplied
  chosen_piece-IsSupplied s h = elim (Bool-cases ((attempts P 20 s).piece_size == 0)) [
    | inl t ↦ rw t (attempts-IsSupplied 19 s h)
    | inr t ↦ rw t (attempts-IsSupplied 19 s h)
  ]

  init-full : (id n : ℕ) (garbage : ℕ → ℕ) (p : Piece) → full (init id n garbage p) ≡ false
  unfolding init full
  init-full id n garbage p = refl

  -- Whether a connection works depends on its piece alone.
  pub Works-elsewhere :
      (s : PeerProtocol P) (state : State) (clients_pieces : P.BitSet) (offset : ℕ)
      (files : List (File P)) (piece_list : PieceList) (messages : List (List ℕ))
      → Works P torrent s
      → Works P torrent (record s {
        state = state;
        clients_pieces = clients_pieces;
        offset = offset;
        files = files;
        piece_list = piece_list;
        messages = messages;
      })
  Works-elsewhere s state clients_pieces offset files piece_list messages (inl h) =
      inl (record { no_size = h.no_size; no_index = h.no_index })
  Works-elsewhere s state clients_pieces offset files piece_list messages (inr h) = inr (record {
    came = h.came;
    buffer = h.buffer;
    holds = h.holds;
    known = h.known;
    whole = h.whole;
    sized = h.sized;
    positive = h.positive;
    unfinished = h.unfinished;
  })

  create_request-Keeps :
      (fs : List (File P)) (s : PeerProtocol P)
      → Keeps P torrent fs s
      → Keeps P torrent fs (create_request P s)
  unfolding create_request
  create_request-Keeps fs s k =
      let (offset, (messages, e)) =
        request_blocks-only P (s.piece_size / block_size + 1) (record s { offset = 0 }) in
      subst (Keeps P torrent fs) (sym e) (record {
        works =
            Works-elsewhere s s.state s.clients_pieces offset s.files s.piece_list messages k.works;
        stocked = k.stocked;
        saves = k.saves;
      })

  request_if-Keeps :
      (fs : List (File P)) (r : Bool × PeerProtocol P)
      → Keeps P torrent fs r.1
      → Keeps P torrent fs (request_if P r)
  request_if-Keeps fs (true, s) k = create_request-Keeps fs s k
  request_if-Keeps fs (false, s) k = k

  module _ (fits : Fits torrent) where
    Starts-Works :
        (fs : List (File P)) (s : PeerProtocol P) (r : Bool × PeerProtocol P)
        → Starts P s r
        → IsSupplied fs r.1
        → Works P torrent r.1
    unfolding IsSupplied
    Starts-Works fs s (false, s') (z, m, p) h = inl (record { no_size = z; no_index = m })
    Starts-Works fs s (true, s') (z, t, p) ((inl e, known), h) = absurd (z e)
    Starts-Works fs s (true, s') (z, t, p) ((inr e, known), h) =
        let bound : s'.piece_size < u64_mod = rw e (fits s'.piece_index) in
        let garbage = P.new_bytes s'.piece_size in
        inr (record {
          came = λ i. false;
          buffer = record { capacity = s'.piece_size; byte_at = garbage };
          holds = rw p (
              init-Holds s'.piece_index s'.piece_size garbage (torrent.content s'.piece_index)
                s.piece bound);
          known = known;
          whole = rw p (init-size s'.piece_index s'.piece_size garbage s.piece);
          sized = e;
          positive = omega arith;
          unfinished = rw p (init-full s'.piece_index s'.piece_size garbage s.piece);
        })

    -- Whatever the connection did before: it looks for a piece, and works on it or is idle.
    pub next_piece-Ends :
        (fs : List (File P)) (s : PeerProtocol P)
        → IsStocked P torrent s.piece_list
        → Saves P torrent fs s.files
        → Ends P torrent fs (next_piece P s)
    unfolding IsSupplied
    next_piece-Ends fs s h k =
        let supplied = chosen_piece-IsSupplied s h in
        next_piece-cases P (Ends P torrent fs) s (λ l. inr (s.clients_pieces, l))
          (request_if-Keeps fs (chosen_piece P s) (record {
            works = Starts-Works s.files s (chosen_piece P s) (chosen_piece-Starts P s) supplied;
            stocked = supplied.1.0;
            saves = subst (Saves P torrent fs) (sym supplied.1.1) k;
          }))
