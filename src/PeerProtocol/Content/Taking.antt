-- ===== src/PeerProtocol/Content/Taking.antt =====
-- What a connection does with one block of its piece from a peer that answers its requests.
use torrent_client.Base.{
  ℕ, suc, ◌+◌, ◌<◌, ◌≡◌, refl, sym, ap, ◌∙◌, inl, inr, List, [], ◌∷◌, ◌++◌, Bool, true, false, ◌||◌,
  ◌==◌, ==_iff, ge→ltb, Bool-cases, arith, u32_mod, sub64, minus_one, Outcome, ok, ◌>>=◌, length,
  length-append, take-length-append, drop-length-append,
}
use torrent_client.Platform.{Platform}
use torrent_client.Messages.{ntohl_at}
use torrent_client.Piece.{Piece, Buffer, new_piece}
use torrent_client.Piece
use torrent_client.Piece.Overlap.{Block}
use torrent_client.Piece.Cutting.{in_block}
use torrent_client.Piece.Receiving.{add-Receives}
use torrent_client.Piece.Assembly.{Holds, Holds-get}
use torrent_client.Piece.Requested.{IsRequested, IsAligned, AreRequested-AreIn, requested_step}
use torrent_client.Files.{write_piece}
use torrent_client.Files.Source.{ReadsCount, write_piece-same}
use torrent_client.PeerProtocol.{PeerProtocol, bytes_from, next_piece}
use torrent_client.PeerProtocol.Handlers.{
  dispatch, process_piece, add_bytes, store_piece, finish_if_full, finish_piece, store_files,
  continue, process_frames,
}
use torrent_client.PeerProtocol.Framing.{frames_whole}
use torrent_client.PeerProtocol.Content.Answers.{
  answer, message-length, message-fields, message-bytes,
}
use torrent_client.PeerProtocol.Content.Storing.{Receives-agreeing}

get_leaves : (p : Piece) → (Piece.get p).1 ≡ new_piece
unfolding Piece.get
get_leaves p = refl

module _ (P : Platform) (index : ℕ) (content : ℕ → ℕ) (i : index < u32_mod) where
  -- The loop takes one answer, and hands it to process_piece.
  pub frames-answer :
      (fuel : ℕ) (b : Block) (rest : List ℕ) (s : PeerProtocol P)
      → b.offset < u32_mod
      → 9 + b.size < u32_mod
      → process_frames P (suc fuel) (answer index content b ++ rest) s
        ≡ continue P
            (process_piece P (answer index content b) s)
            (answer index content b ++ rest)
            (process_frames P fuel rest)
  unfolding dispatch
  frames-answer fuel b rest s o n =
      let message = answer index content b in
      let (f5, (f9, (size, type))) = message-fields index content b rest i o n in
      let len = message-length index content b rest i o n in
      let total = length-append message rest in
      let behind : ntohl_at (message ++ rest) 0 + 4 ≡ length message = omega (arith, size, len) in
      frames_whole P fuel (message ++ rest) s (omega (arith, len, total))
        (λ e. omega (arith, size, e)) (omega (arith, size, len, total))
      ∙ rw (behind, type, take-length-append message rest, drop-length-append message rest) refl

  add_bytes-fields :
      (b : Block) (s : PeerProtocol P)
      → b.offset < u32_mod
      → 9 + b.size < u32_mod
      → add_bytes P (answer index content b) s
        ≡ store_piece P s
            (Piece.add index (bytes_from (answer index content b) 13) b.size b.offset s.piece)
  unfolding add_bytes
  add_bytes-fields b s o n =
      let (f5, (f9, _)) = message-fields index content b [] i o n in
      let block_size : sub64 (sub64 (length (answer index content b)) 5) 8 ≡ b.size =
        omega (arith, message-length index content b [] i o n, n) in
      rw (f5, f9, block_size) refl

  module _ (size : ℕ) where
    -- A block of the piece is taken.
    add_bytes-answer :
        (came : ℕ → Bool) (b : Block) (s : PeerProtocol P) (m : Buffer)
        → Holds index content came s.piece m
        → s.piece.full_piece_size ≡ size
        → size + 9 < u32_mod
        → IsAligned size came
        → IsRequested size b
        → (p' : Piece) × ((m' : Buffer) × ((add_bytes P (answer index content b) s
                ≡ ok (record s { piece = p' }))
              × (Holds index content (λ i. came i || in_block i b) p' m'
                  × (p'.full_piece_size ≡ size))))
    add_bytes-answer came b s m h w f a q =
        let message = answer index content b in
        let (positive, inside, _) = AreRequested-AreIn size (b ∷ []) (q, tt) in
        let o : b.offset < u32_mod = omega (arith, inside) in
        let n : 9 + b.size < u32_mod = omega (arith, inside) in
        let source = bytes_from message 13 in
        let received =
          add-Receives s.piece m index source b.size b.offset h.valid (inr h.has_id) positive
            (omega (arith, h.valid.sized, inside)) in
        let (p', m', e, h', w') =
          requested_step index content came size b s.piece m
            (Piece.add index source b.size b.offset s.piece) h w a q
            (Receives-agreeing s.piece m index source (λ j. content (b.offset + j)) b.offset b.size
              _ (message-bytes index content b [] i o n) received) in
        (p', (m', (add_bytes-fields b s o n ∙ ap (store_piece P s) e, (h', w'))))

    -- process_piece adds the block, and looks whether the piece is full.
    process_piece-answer :
        (b : Block) (s : PeerProtocol P) (p : Piece)
        → b.offset < u32_mod
        → 9 + b.size < u32_mod
        → s.piece_index ≡ index
        → add_bytes P (answer index content b) s ≡ ok (record s { piece = p })
        → process_piece P (answer index content b) s ≡ finish_if_full P (record s { piece = p })
    unfolding process_piece
    process_piece-answer b s p o n x e =
        let (f5, _) = message-fields index content b [] i o n in
        let len = message-length index content b [] i o n in
        let right : (ntohl_at (answer index content b) 5 == s.piece_index) ≡ true =
          (==_iff _ _).1 (f5 ∙ sym x) in
        rw
          (
            ge→ltb (length (answer index content b)) 9 (omega (arith, len)),
            ge→ltb (length (answer index content b)) 13 (omega (arith, len)),
            right,
          )
          (ap (λ r. r >>= finish_if_full P) e)

    full_piece :
        (came : ℕ → Bool) (p : Piece) (m : Buffer)
        → 0 < size
        → Holds index content came p m
        → p.full_piece_size ≡ size
        → ((j : ℕ) → j < size → came j ≡ true)
        → Piece.full p ≡ true
    full_piece came p m z h w c = (Holds-get index content came size p m z h w).0.1 c

    missing_byte :
        (came : ℕ → Bool) (p : Piece) (m : Buffer) (j : ℕ)
        → 0 < size
        → Holds index content came p m
        → p.full_piece_size ≡ size
        → j < size
        → came j ≡ false
        → Piece.full p ≡ false
    missing_byte came p m j z h w l e = elim (Bool-cases (Piece.full p)) [
      | inr t ↦ t
      | inl t ↦ let there = (Holds-get index content came size p m z h w).0.0 t j l in cc
    ]

    -- A complete piece goes to the files, and the connection looks for the next one.
    finish_if_full_complete :
        (came : ℕ → Bool) (s : PeerProtocol P) (m : Buffer)
        → ReadsCount P
        → 0 < size
        → Holds index content came s.piece m
        → s.piece.full_piece_size ≡ size
        → s.piece_index ≡ index
        → s.piece_size ≡ size
        → ((j : ℕ) → j < size → came j ≡ true)
        → finish_if_full P s ≡ (
            store_files P
              (record s { piece = new_piece })
              (write_piece P index content size s.files)
            >>= λ s'. next_piece P (record s' { offset = 0; piece_index = minus_one }))
    unfolding finish_if_full finish_piece
    finish_if_full_complete came s m reads z h w x y c =
        let t = full_piece came s.piece m z h w c in
        let (m', e, same) = (Holds-get index content came size s.piece m z h w).1 t in
        rw
          (
            t,
            e,
            x,
            y,
            get_leaves s.piece,
            write_piece-same P reads index m'.byte_at content size same s.files,
          )
          refl

    -- What came of the piece before each block.
    pub more_came :
        (came : ℕ → Bool) (b : Block) (s : PeerProtocol P) (m : Buffer) (j : ℕ)
        → Holds index content came s.piece m
        → s.piece.full_piece_size ≡ size
        → size + 9 < u32_mod
        → IsAligned size came
        → IsRequested size b
        → s.piece_index ≡ index
        → j < size
        → (came j || in_block j b) ≡ false
        → (p' : Piece) × ((m' : Buffer) × ((process_piece P (answer index content b) s
                ≡ ok (record s { piece = p' }))
              × (Holds index content (λ i. came i || in_block i b) p' m'
                  × (p'.full_piece_size ≡ size))))
    unfolding finish_if_full
    more_came came b s m j h w f a q x l c =
        let (positive, inside, _) = AreRequested-AreIn size (b ∷ []) (q, tt) in
        let (p', (m', (e, (h', w')))) = add_bytes-answer came b s m h w f a q in
        let missing = missing_byte (λ i. came i || in_block i b) p' m' j (omega arith) h' w' l c in
        (
          p',
          (
            m',
            (
              process_piece-answer b s p' (omega arith) (omega arith) x e ∙ rw missing refl,
              (h', w'),
            ),
          ),
        )

    abbrev pub written : PeerProtocol P → Outcome (PeerProtocol P)
    written s =
        store_files P (record s { piece = new_piece }) (write_piece P index content size s.files)
        >>= λ s'. next_piece P (record s' { offset = 0; piece_index = minus_one })

    pub last_came :
        (came : ℕ → Bool) (b : Block) (s : PeerProtocol P) (m : Buffer)
        → ReadsCount P
        → Holds index content came s.piece m
        → s.piece.full_piece_size ≡ size
        → size + 9 < u32_mod
        → IsAligned size came
        → IsRequested size b
        → s.piece_index ≡ index
        → s.piece_size ≡ size
        → ((j : ℕ) → j < size → (came j || in_block j b) ≡ true)
        → process_piece P (answer index content b) s ≡ written s
    last_came came b s m reads h w f a q x y c =
        let (positive, inside, _) = AreRequested-AreIn size (b ∷ []) (q, tt) in
        let (p', (m', (e, (h', w')))) = add_bytes-answer came b s m h w f a q in
        process_piece-answer b s p' (omega arith) (omega arith) x e
        ∙ finish_if_full_complete (λ i. came i || in_block i b) (record s { piece = p' }) m' reads
            (omega arith) h' w' x y c
