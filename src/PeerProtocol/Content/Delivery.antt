-- ===== src/PeerProtocol/Content/Delivery.antt =====
-- A peer that answers the requests for a piece: the piece gets to the files.
use torrent_client.Base.{
  ℕ, zero, suc, ◌+◌, ◌<◌, ◌≡◌, refl, ap, ◌∙◌, List, [], ◌∷◌, ◌++◌, Bool, true, false, ◌||◌, arith,
  u32_mod, u64_mod, minus_one, Outcome, ok, throws, undefined, length,
}
use torrent_client.Platform.{Platform}
use torrent_client.Piece.{Piece, Buffer, new_piece}
use torrent_client.Piece
use torrent_client.Piece.Overlap.{Block}
use torrent_client.Piece.Cutting.{in_block}
use torrent_client.Piece.Assembly.{Holds, init-Holds, init-size}
use torrent_client.Piece.Requested.{
  AreRequested, IsAligned, start-IsAligned, IsAligned-add, AreRequested-AreIn,
}
use torrent_client.Files.{File, write_piece}
use torrent_client.Files.Source.{ReadsCount}
use torrent_client.PeerProtocol.{PeerProtocol, acting, next_piece, chosen_piece, request_if}
use torrent_client.PeerProtocol.Bits.{next_piece-cases}
use torrent_client.PeerProtocol.Handlers.{continue, process_frames, process_message, counted}
use torrent_client.PeerProtocol.Framing.{frames_short, frames_fuel}
use torrent_client.PeerProtocol.Portions.{start_acting}
use torrent_client.PeerProtocol.Content.Answers.{answer, answers}
use torrent_client.PeerProtocol.Content.Taking.{frames-answer, more_came, last_came}

-- The last block completes the bytes that came, and none before it does.
abbrev pub Completes : ℕ → (ℕ → Bool) → List Block → Type 0
Completes n came [] = ⊥
Completes n came (b ∷ []) = (i : ℕ) → i < n → (came i || in_block i b) ≡ true
Completes n came (b ∷ c ∷ cs) =
    ((i : ℕ) × ((i < n) × ((came i || in_block i b) ≡ false)))
    × Completes n (λ i. came i || in_block i b) (c ∷ cs)

module _ (P : Platform) where
  -- The connection behind a piece that is in the files, and what it does next.
  abbrev left_by : List (File P) → PeerProtocol P → PeerProtocol P
  left_by fs s = record s { piece = new_piece; files = fs; offset = 0; piece_index = minus_one }

  abbrev pub moved_on : List (File P) → PeerProtocol P → Outcome (PeerProtocol P)
  moved_on fs s = next_piece P (left_by fs s)

  -- An outcome with something else beside the connection.
  abbrev pub beside : {A : Type 0} → A → Outcome (PeerProtocol P) → Outcome (PeerProtocol P × A)
  beside a (ok s) = ok (s, a)
  beside a (throws e s) = throws e (s, a)
  beside a undefined = undefined

  nothing_left :
      (fuel : ℕ) (rest : List ℕ) (s : PeerProtocol P)
      → continue P (next_piece P s) rest (process_frames P (suc fuel) [])
        ≡ beside [] (next_piece P s)
  nothing_left fuel rest s =
      next_piece-cases P (λ o. continue P o rest (process_frames P (suc fuel) []) ≡ beside [] o) s
        (λ l. refl) (frames_short P fuel [] (request_if P (chosen_piece P s)) (omega arith))

  all_counted :
      (n : ℕ) (s : PeerProtocol P)
      → counted P n (beside [] (next_piece P s)) ≡ beside n (next_piece P s)
  all_counted n s =
      next_piece-cases P (λ o. counted P n (beside [] o) ≡ beside n o) s (λ l. refl)
        (ap (λ m. ok (request_if P (chosen_piece P s), m)) (omega arith))

module _ (P : Platform) (index : ℕ) (content : ℕ → ℕ) (i : index < u32_mod) where
  module _ (size : ℕ) (reads : ReadsCount P) (small : size + 9 < u32_mod) (fs : List (File P)) where
    frames-answers :
        (fuel : ℕ) (bs : List Block) (came : ℕ → Bool) (s : PeerProtocol P) (m : Buffer)
        → length bs < fuel
        → Holds index content came s.piece m
        → s.piece.full_piece_size ≡ size
        → IsAligned size came
        → AreRequested size bs
        → s.piece_index ≡ index
        → s.piece_size ≡ size
        → Completes size came bs
        → write_piece P index content size s.files ≡ ok fs
        → process_frames P fuel (answers index content bs) s ≡ beside P [] (moved_on P fs s)
    frames-answers zero bs came s m l h w a q x y c e = absurd (omega arith)
    frames-answers (suc fuel) [] came s m l h w a q x y c e = absurd c
    frames-answers (suc zero) (b ∷ bs) came s m l h w a q x y c e = absurd (omega arith)
    frames-answers (suc (suc fuel)) (b ∷ []) came s m l h w a q x y c e =
        let (positive, inside, _) = AreRequested-AreIn size (b ∷ []) q in
        frames-answer P index content i (suc fuel) b [] s (omega arith) (omega arith)
        ∙ rw (last_came P index content i size came b s m reads h w small a q.0 x y c, e)
            (nothing_left P fuel (answer index content b ++ []) (left_by P fs s))
    frames-answers (suc (suc fuel)) (b ∷ d ∷ bs) came s m l h w a q x y ((j, (k, n)), c) e =
        let (positive, inside, _) = AreRequested-AreIn size (b ∷ []) (q.0, tt) in
        let (p', (m', (took, (h', w')))) =
          more_came P index content i size came b s m j h w small a q.0 x k n in
        frames-answer P index content i (suc fuel) b (answers index content (d ∷ bs)) s
          (omega arith) (omega arith)
        ∙ rw took (
            frames-answers (suc fuel) (d ∷ bs) (λ i. came i || in_block i b)
              (record s { piece = p' }) m' (omega arith) h' w' (IsAligned-add size came b a q.0) q.1
              x y c e)

    -- When a connection has just started on a piece and its peer answers requests for it, in any
    -- order, until no byte is missing, then one call of process_message with the answers writes the
    -- whole piece to the files and looks for the next piece, with nothing left of the answers. What
    -- the call ends with is what that search ends with, undefined only where the search reads a bit
    -- that BitSet does not have. This is so if the write succeeds, for an index of 32 bits and a
    -- piece below 2^32 - 9 bytes; pwrite reads no more than the bytes that it is to write.
    pub answered-written :
        (bs : List Block) (garbage : ℕ → ℕ) (p₀ : Piece) (s : PeerProtocol P)
        → s.state ≡ acting
        → s.piece ≡ Piece.init index size garbage p₀
        → s.piece_index ≡ index
        → s.piece_size ≡ size
        → AreRequested size bs
        → Completes size (λ i. false) bs
        → write_piece P index content size s.files ≡ ok fs
        → process_message P (answers index content bs) s
          ≡ beside P (length (answers index content bs)) (moved_on P fs s)
    unfolding process_message
    answered-written bs garbage p₀ s t p x y q c e =
        let received = answers index content bs in
        let bound : size < u64_mod = omega arith in
        let start = init-Holds index size garbage content p₀ bound in
        let all = length received + length bs + 2 in
        ap (counted P (length received)) (
          start_acting P received s t
          ∙ frames_fuel P (length received + 1) all received s (omega arith) (omega arith)
          ∙ frames-answers all bs (λ i. false) s (record { capacity = size; byte_at = garbage })
              (omega arith) (rw p start) (rw p (init-size index size garbage p₀))
              (start-IsAligned size) q x y c e)
        ∙ all_counted P (length received) (left_by P fs s)
