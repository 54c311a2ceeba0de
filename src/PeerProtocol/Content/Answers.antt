-- ===== src/PeerProtocol/Content/Answers.antt =====
-- The piece messages that answer requests, as a reader finds them.
use torrent_client.Base.{
  ℕ, zero, suc, ◌+◌, ◌<◌, ◌≡◌, refl, ap, ◌∙◌, List, [], ◌∷◌, ◌++◌, append_assoc, arith, u32_mod,
  get_or, length, length-append,
}
use torrent_client.Messages.{ntohl_at, piece_message}
use torrent_client.Messages.Fields.{piece_message_fields}
use torrent_client.Piece.Overlap.{Block}
use torrent_client.PeerProtocol.{bytes_from}

-- The bytes of a content from an offset on.
abbrev pub bytes_at : (ℕ → ℕ) → ℕ → ℕ → List ℕ
bytes_at content offset zero = []
bytes_at content offset (suc n) = content offset ∷ bytes_at content (offset + 1) n

length-bytes_at : (content : ℕ → ℕ) (offset n : ℕ) → length (bytes_at content offset n) ≡ n
length-bytes_at content offset zero = refl
length-bytes_at content offset (suc n) = omega (arith, length-bytes_at content (offset + 1) n)

get_or-bytes_at :
    (content : ℕ → ℕ) (offset n i : ℕ)
    → i < n
    → get_or (bytes_at content offset n) i 0 ≡ content (offset + i)
get_or-bytes_at content offset zero i l = absurd (omega arith)
get_or-bytes_at content offset (suc n) zero l = ap content (omega arith)
get_or-bytes_at content offset (suc n) (suc i) l =
    get_or-bytes_at content (offset + 1) n i (omega arith) ∙ ap content (omega arith)

get_or-behind :
    (xs ys : List ℕ) (i j : ℕ) → i ≡ length xs + j → get_or (xs ++ ys) i 0 ≡ get_or ys j 0
get_or-behind [] ys i j e = ap (λ k. get_or ys k 0) (omega arith)
get_or-behind (x ∷ xs) ys zero j e = absurd (omega arith)
get_or-behind (x ∷ xs) ys (suc i) j e = get_or-behind xs ys i j (omega arith)

-- The piece message that answers a request.
abbrev pub answer : ℕ → (ℕ → ℕ) → Block → List ℕ
answer index content b =
    piece_message (9 + b.size) index b.offset ++ bytes_at content b.offset b.size

abbrev pub answers : ℕ → (ℕ → ℕ) → List Block → List ℕ
answers index content [] = []
answers index content (b ∷ bs) = answer index content b ++ answers index content bs

module _ (index : ℕ) (content : ℕ → ℕ) (b : Block) (rest : List ℕ) (i : index < u32_mod)
    (o : b.offset < u32_mod) (n : 9 + b.size < u32_mod) where
  abbrev pub message : List ℕ
  message = answer index content b

  pub message-length : length message ≡ 13 + b.size
  message-length =
      length-append (piece_message (9 + b.size) index b.offset) (bytes_at content b.offset b.size)
      ∙ omega (
        arith,
        length-bytes_at content b.offset b.size,
        (piece_message_fields (9 + b.size) index b.offset [] n i o).0,
      )

  pub message-fields :
      (ntohl_at message 5 ≡ index)
      × ((ntohl_at message 9 ≡ b.offset)
          × ((ntohl_at (message ++ rest) 0 ≡ 9 + b.size) × (get_or (message ++ rest) 4 0 ≡ 7)))
  message-fields =
      let bytes = bytes_at content b.offset b.size in
      let own = piece_message_fields (9 + b.size) index b.offset bytes n i o in
      let all = piece_message_fields (9 + b.size) index b.offset (bytes ++ rest) n i o in
      let joined = append_assoc (piece_message (9 + b.size) index b.offset) bytes rest in
      (
        own.3,
        (own.4, (ap (λ l. ntohl_at l 0) joined ∙ all.1, ap (λ l. get_or l 4 0) joined ∙ all.2)),
      )

  pub message-bytes : (j : ℕ) → j < b.size → bytes_from message 13 j ≡ content (b.offset + j)
  message-bytes j l =
      get_or-behind (piece_message (9 + b.size) index b.offset) (bytes_at content b.offset b.size)
        (13 + j) j (omega (arith, (piece_message_fields (9 + b.size) index b.offset [] n i o).0))
      ∙ get_or-bytes_at content b.offset b.size j l
