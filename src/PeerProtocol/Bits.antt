-- ===== src/PeerProtocol/Bits.antt =====
-- The bits of a peer that get_piece_index reads, and those that a new connection has
-- (peer_protocol.cpp).
use torrent_client.Base.{
  ℕ, zero, suc, ◌*◌, ◌/◌, ◌%◌, ◌+◌, ◌-◌, ◌≤◌, ◌<◌, ◌≢◌, ◌↔◌, ◌≡◌, sym, ◌∙◌, ltb, lt→ltb, ltb→lt,
  List, u64_mod, inl, inr, true, false, Bool-cases, Outcome, ok, arith, undefined,
}
use torrent_client.Platform.{Platform}
use torrent_client.PieceList.{new_piece_list, number_of_pieces}
use torrent_client.PieceList.Sizes.{bitfield_reaches_iff}
use torrent_client.Files.{File}
use torrent_client.PeerProtocol.{
  new_peer_protocol, PeerProtocol, take_piece, put_back, reads_bits, chosen_piece, get_piece_index,
  request_if, next_piece,
}

module _ (P : Platform) where
  -- The set has no bit at some index.
  abbrev pub Lacks : P.BitSet → Type 0
  Lacks bits = (i : ℕ) × (P.has i bits ≡ false)

  pub reads_bits-Lacks :
      (n : ℕ) (s : PeerProtocol P) → reads_bits P n s ≡ false → Lacks s.clients_pieces
  unfolding reads_bits take_piece put_back
  reads_bits-Lacks zero s e = cc
  reads_bits-Lacks (suc n) s e =
      let s' = take_piece P s in
      elim (Bool-cases (P.has s'.piece_index s.clients_pieces)) [
        | inr h ↦ (s'.piece_index, h)
        | inl h ↦ reads_bits-Lacks n (put_back P s') (ground (arith, h, e))
      ]

  -- A predicate of next_piece, from the two ways that it can end.
  pub next_piece-cases :
      (Q : Outcome (PeerProtocol P) → Type 0) (s : PeerProtocol P)
      → (Lacks s.clients_pieces → Q undefined)
      → Q (ok (request_if P (chosen_piece P s)))
      → Q (next_piece P s)
  unfolding next_piece get_piece_index
  next_piece-cases Q s u h = elim (Bool-cases (reads_bits P 20 s)) [
    | inl t ↦ rw t h
    | inr t ↦ rw t (u (reads_bits-Lacks 20 s t))
  ]

module _ (P : Platform)
    (binds : (k i : ℕ) (bits : P.BitSet) → P.has i (P.bind k bits) ≡ ltb i (8 * k))
    (files : List (File P)) (n last size : ℕ) (info_hash memory random : List ℕ) (garbage : ℕ) where
  abbrev bits : P.BitSet
  bits =
      (new_peer_protocol P files (new_piece_list n last size) info_hash memory random
        garbage).clients_pieces

  bits-has :
      (i : ℕ) → P.has i bits ≡ ltb i (8 * (number_of_pieces (new_piece_list n last size) / 8 + 1))
  unfolding new_peer_protocol
  bits-has i = binds _ i P.no_bits

  -- For a torrent of two pieces or more, below 2^64: the set of the pieces of a peer in a new
  -- connection has a bit for every piece exactly when the number of pieces is not one more than a
  -- multiple of 8. This is for a BitSet whose bind makes as many bytes of bits as it is told.
  pub new_peer_protocol-has_iff :
      2 ≤ n
      → n < u64_mod
      → ((i : ℕ)
          → i < n
          → P.has i
              (new_peer_protocol P files
                (new_piece_list n last size)
                info_hash
                memory
                random
                garbage).clients_pieces
            ≡ true)
        ↔ (n % 8 ≢ 1)
  new_peer_protocol-has_iff h f =
      let k = number_of_pieces (new_piece_list n last size) / 8 + 1 in
      let reaches = bitfield_reaches_iff n last size h f in
      (
        λ all.
            let top =
              ltb→lt (n - 1) (8 * k) (sym (bits-has (n - 1)) ∙ all (n - 1) (omega (arith, h))) in
            reaches.0 (omega (arith, top, h)),
        λ m i l.
            let enough = reaches.1 m in bits-has i ∙ lt→ltb i (8 * k) (omega (arith, enough, l)),
      )
