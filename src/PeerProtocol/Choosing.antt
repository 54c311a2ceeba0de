-- ===== src/PeerProtocol/Choosing.antt =====
-- get_piece_index: which piece a connection starts on, and what it leaves in the list of pieces.
use torrent_client.Base.{
  ℕ, zero, suc, ◌<◌, ◌≡◌, ◌≢◌, refl, ap, ◌∙◌, ◌⊎◌, inl, inr, List, [], ◌∷◌, ◌++◌, get_or, drop,
  Bool, true, false, Bool-cases, ◌==◌, ==_iff, leb, minus_one, if◌then◌else◌, arith, Outcome, ok,
  throws, undefined,
}
use torrent_client.Platform.{Platform}
use torrent_client.Piece.{init}
use torrent_client.PieceList.{PieceList, get_piece, get_piece_from, size_of, return_piece}
use torrent_client.PeerProtocol.{
  PeerProtocol, attempts, take_piece, wants, put_back, reads_bits, chosen_piece, get_piece_index,
}
use torrent_client.PeerProtocol.Bits.{Lacks, reads_bits-Lacks}

gt→leb : (a b : ℕ) → b < a → leb a b ≡ false
gt→leb a b h = ground arith

size_of-minus_one :
    (l : PieceList) → l.max_piece_num ≢ minus_one → size_of l minus_one ≡ l.piece_size
size_of-minus_one l m = ground arith

module _ (P : Platform) where
  -- What a connection has after its attempts.
  Attempted : PeerProtocol P → PeerProtocol P → Type 0
  Attempted s s' =
      (s'.piece ≡ s.piece)
      × (s'.clients_pieces ≡ s.clients_pieces)
      × ((wants P s' ≡ true) ⊎ ((s'.piece_size ≡ 0) × (s'.piece_index ≡ minus_one)))

  attempts-Attempted :
      (n : ℕ) (s : PeerProtocol P)
      → s.piece_size ≡ 0
      → s.piece_index ≡ minus_one
      → Attempted s (attempts P n s)
  unfolding Attempted attempts take_piece put_back
  attempts-Attempted zero s z m = (refl, refl, inr (z, m))
  attempts-Attempted (suc n) s z m = elim (Bool-cases (wants P (take_piece P s))) [
    | inl t ↦ rw t (refl, refl, inl t)
    | inr t ↦ rw t (attempts-Attempted n (put_back P (take_piece P s)) refl refl)
  ]

  first_attempt : (n : ℕ) (s : PeerProtocol P) → Attempted s (attempts P (suc n) s)
  unfolding Attempted attempts take_piece put_back
  first_attempt n s = elim (Bool-cases (wants P (take_piece P s))) [
    | inl t ↦ rw t (refl, refl, inl t)
    | inr t ↦ rw t (attempts-Attempted n (put_back P (take_piece P s)) refl refl)
  ]

  -- What the attempts lead to.
  abbrev pub Starts : PeerProtocol P → Bool × PeerProtocol P → Type 0
  Starts s (true, s') =
      (s'.piece_size ≢ 0)
      × (P.test s'.piece_index s.clients_pieces ≡ true)
      × (s'.piece ≡ init s'.piece_index s'.piece_size (P.new_bytes s'.piece_size) s.piece)
  Starts s (false, s') = (s'.piece_size ≡ 0) × (s'.piece_index ≡ minus_one) × (s'.piece ≡ s.piece)

  chosen :
      (s s' : PeerProtocol P)
      → Attempted s s'
      → Starts s (
          if s'.piece_size == 0 then (false, s') else (
            true,
            record s' {
              piece = init s'.piece_index s'.piece_size (P.new_bytes s'.piece_size) s'.piece;
            },
          ))
  unfolding Attempted wants
  chosen s s' (p, c, inr (z, m)) = rw ((==_iff _ _).1 z) (z, m, p)
  chosen s s' (p, c, inl w) = elim (Bool-cases (s'.piece_size == 0)) [
    | inl t ↦ absurd (ground arith)
    | inr t ↦
        rw (t) (ground arith, rw (← c) (ground arith), ap (init s'.piece_index s'.piece_size _) p)
  ]

  pub chosen_piece-Starts : (s : PeerProtocol P) → Starts s (chosen_piece P s)
  unfolding chosen_piece
  chosen_piece-Starts s = chosen s (attempts P 20 s) (first_attempt 19 s)

  -- The outcome of get_piece_index.
  abbrev pub Chosen : PeerProtocol P → Outcome (Bool × PeerProtocol P) → Type 0
  Chosen s (ok r) = Starts s r
  Chosen s (throws e r) = ⊥
  Chosen s undefined = Lacks P s.clients_pieces

  -- get_piece_index either starts on a piece of some bytes that the peer has, with m_piece set up
  -- for it, or leaves the connection without a piece and m_piece as it was; it is undefined only if
  -- the peer's BitSet has no bit at some index.
  pub get_piece_index-Chosen : (s : PeerProtocol P) → Chosen s (get_piece_index P s)
  unfolding get_piece_index
  get_piece_index-Chosen s = elim (Bool-cases (reads_bits P 20 s)) [
    | inl t ↦ rw t (chosen_piece-Starts s)
    | inr t ↦ rw t (reads_bits-Lacks P 20 s t)
  ]

  not_wanted :
      (s : PeerProtocol P)
      → s.piece_index ≡ minus_one
      → P.test minus_one s.clients_pieces ≡ false
      → wants P s ≡ false
  unfolding wants
  not_wanted s m t = elim (Bool-cases (s.piece_size == 0)) [
    | inl z ↦ rw z refl
    | inr z ↦ rw (z, m) t
  ]

  -- -1 comes from the list when it is the only returned piece, and when there is no piece left.
  abbrev GivesMinusOne : PieceList → Type 0
  GivesMinusOne l =
      (l.returned_pieces ≡ minus_one ∷ [])
      ⊎ ((l.returned_pieces ≡ []) × (l.max_piece_num < l.next_piece))

  given_from :
      (l : PieceList) (returned : List ℕ)
      → returned ≡ l.returned_pieces
      → GivesMinusOne l
      → ((get_piece_from l returned).piece_index ≡ minus_one)
        × (return_piece minus_one (get_piece_from l returned).rest
            ≡ record l { returned_pieces = minus_one ∷ [] })
  unfolding get_piece_from return_piece
  given_from l [] e (inl r) = cc
  given_from l [] e (inr (r, b)) = rw (gt→leb l.next_piece l.max_piece_num b) (refl, rw r refl)
  given_from l (x ∷ xs) e (inl r) =
      let same = e ∙ r in
      (
        ap (λ ys. get_or ys 0 0) same,
        ap (λ ys. record l { returned_pieces = drop 1 ys ++ minus_one ∷ [] }) same,
      )
  given_from l (x ∷ xs) e (inr (r, b)) = cc

  given :
      (l : PieceList)
      → GivesMinusOne l
      → ((get_piece l).piece_index ≡ minus_one)
        × (return_piece minus_one (get_piece l).rest
            ≡ record l { returned_pieces = minus_one ∷ [] })
  unfolding get_piece
  given l g = given_from l l.returned_pieces refl g

  -- Each attempt takes -1 and gives it back.
  attempt_minus_one :
      (s : PeerProtocol P)
      → GivesMinusOne s.piece_list
      → (put_back P (take_piece P s)).piece_list
        ≡ record s.piece_list { returned_pieces = minus_one ∷ [] }
  unfolding put_back take_piece
  attempt_minus_one s g =
      let (m, back) = given s.piece_list g in
      ap (λ i. return_piece i (get_piece s.piece_list).rest) m ∙ back

  attempts-minus_one :
      (n : ℕ) (s : PeerProtocol P)
      → GivesMinusOne s.piece_list
      → P.test minus_one s.clients_pieces ≡ false
      → (attempts P (suc n) s).piece_list ≡ record s.piece_list { returned_pieces = minus_one ∷ [] }
  unfolding attempts take_piece put_back
  attempts-minus_one zero s g t =
      rw (not_wanted (take_piece P s) ((given s.piece_list g).0) t) (attempt_minus_one s g)
  attempts-minus_one (suc n) s g t =
      let left = attempt_minus_one s g in
      rw (not_wanted (take_piece P s) ((given s.piece_list g).0) t) (
        attempts-minus_one n (put_back P (take_piece P s)) (inl (ap (λ l. l.returned_pieces) left))
          t
        ∙ ap {A = PieceList} (λ l. record l { returned_pieces = minus_one ∷ [] }) left)

  chosen_piece-piece_list :
      (s : PeerProtocol P) → (chosen_piece P s).1.piece_list ≡ (attempts P 20 s).piece_list
  unfolding chosen_piece
  chosen_piece-piece_list s = elim (Bool-cases ((attempts P 20 s).piece_size == 0)) [
    | inl t ↦ rw t refl
    | inr t ↦ rw t refl
  ]

  -- The only bit that is read is bit -1.
  reads_minus_one :
      (n : ℕ) (s : PeerProtocol P)
      → GivesMinusOne s.piece_list
      → P.has minus_one s.clients_pieces ≡ true
      → reads_bits P n s ≡ true
  unfolding reads_bits take_piece put_back
  reads_minus_one zero s g h = refl
  reads_minus_one (suc n) s g h =
      let next =
        reads_minus_one n (put_back P (take_piece P s))
          (inl (ap (λ l. l.returned_pieces) (attempt_minus_one s g))) h in
      let there : P.has (get_piece s.piece_list).piece_index s.clients_pieces ≡ true =
        ap (λ i. P.has i s.clients_pieces) ((given s.piece_list g).0) ∙ h in
      ground (arith, next, there)

  reads_no_bit :
      (s : PeerProtocol P)
      → GivesMinusOne s.piece_list
      → reads_bits P 20 s ≡ false
      → P.has minus_one s.clients_pieces ≡ false
  reads_no_bit s g e = elim (Bool-cases (P.has minus_one s.clients_pieces)) [
    | inr h ↦ h
    | inl h ↦ let read = reads_minus_one 20 s g h in cc
  ]

  -- The list of pieces behind get_piece_index has one returned piece, -1, which get_piece hands out
  -- with a size; or there is no bit -1 to read.
  abbrev pub Pollutes : PeerProtocol P → Outcome (Bool × PeerProtocol P) → Type 0
  Pollutes s (ok (found, s')) =
      (s'.piece_list.returned_pieces ≡ minus_one ∷ [])
      × ((get_piece s'.piece_list).piece_index ≡ minus_one)
      × ((get_piece s'.piece_list).size ≡ s.piece_list.piece_size)
  Pollutes s (throws e r) = ⊥
  Pollutes s undefined = P.has minus_one s.clients_pieces ≡ false

  -- When every piece is handed out, none was returned, max_piece_num is not -1 and the peer has no
  -- piece -1, a connection that looks for a piece leaves -1 in the list of returned pieces;
  -- get_piece then hands out -1 with the size of a whole piece, as if it were a piece of the
  -- torrent. get_piece_index is undefined only if the peer's BitSet has no bit at -1.
  pub get_piece_index-Pollutes :
      (s : PeerProtocol P)
      → s.piece_list.returned_pieces ≡ []
      → s.piece_list.max_piece_num < s.piece_list.next_piece
      → s.piece_list.max_piece_num ≢ minus_one
      → P.test minus_one s.clients_pieces ≡ false
      → Pollutes s (get_piece_index P s)
  unfolding get_piece_index get_piece get_piece_from
  get_piece_index-Pollutes s r l m t = elim (Bool-cases (reads_bits P 20 s)) [
    | inr e ↦ rw e (reads_no_bit s (inr (r, l)) e)
    | inl e ↦
        rw (e, chosen_piece-piece_list s ∙ attempts-minus_one 19 s (inr (r, l)) t)
          (refl, refl, size_of-minus_one s.piece_list m)
  ]
