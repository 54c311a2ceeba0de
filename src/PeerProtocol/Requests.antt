-- ===== src/PeerProtocol/Requests.antt =====
-- create_request: which requests it puts behind the waiting messages.
use torrent_client.Base.{
  ℕ, zero, suc, ◌+◌, ◌-◌, ◌*◌, ◌/◌, ◌%◌, ◌^◌, ◌≤◌, ◌<◌, ◌≡◌, refl, ap, ◌∙◌, List, [], true, ◌∷◌,
  ◌++◌, append_assoc, append-nil, inl, inr, Bool-cases, ltb, ltb→lt, ltb→ge, add64, sub64, u32_mod,
  if◌then◌else◌, arith,
}
use Prim.Native.Nat.{min}
use torrent_client.Platform.{Platform}
use torrent_client.Piece.Overlap.{Block, block}
use torrent_client.Piece.Cover.{covered}
use torrent_client.Piece.Requested.{AreRequested}
use torrent_client.Messages.{request_message}
use torrent_client.PeerProtocol.{
  PeerProtocol, block_size, request_block, request_blocks, create_request, push_message,
}

-- `n` blocks of 2^14 bytes of a piece of a size, from the block `k` on; the last one may be shorter.
pub blocks_from : ℕ → ℕ → ℕ → List Block
blocks_from size k zero = []
blocks_from size k (suc n) =
    block (k * block_size) (min block_size (size - k * block_size)) ∷ blocks_from size (suc k) n

-- The request for a block.
abbrev pub request_for : ℕ → Block → List ℕ
request_for index b = request_message (index % u32_mod) (b.offset % u32_mod) (b.size % u32_mod)

abbrev pub requests_for : ℕ → List Block → List (List ℕ)
requests_for index [] = []
requests_for index (b ∷ bs) = request_for index b ∷ requests_for index bs

abbrev pub number_of_blocks : ℕ → ℕ
number_of_blocks size = (size + block_size - 1) / block_size

requested_size :
    (size offset k : ℕ)
    → size + block_size < 2 ^ 64
    → offset ≡ k * block_size
    → offset < size
    → (if ltb size (add64 offset block_size) then sub64 size offset else block_size)
      ≡ min block_size (size - k * block_size)
requested_size size offset k l e m = elim (Bool-cases (ltb size (add64 offset block_size))) [
  | inl t ↦ rw t (omega (arith, ltb→lt _ _ t))
  | inr t ↦ rw t (omega (arith, ltb→ge _ _ t))
]

abbrev pub blocks_of : ℕ → List Block
blocks_of size = blocks_from size 0 (number_of_blocks size)

-- They are blocks of the piece, and cover it.
blocks_from-AreRequested :
    (size k n : ℕ) → k + n ≤ number_of_blocks size → AreRequested size (blocks_from size k n)
unfolding blocks_from
blocks_from-AreRequested size k zero h = tt
blocks_from-AreRequested size k (suc n) h =
    ((k, omega arith, refl, refl), blocks_from-AreRequested size (suc k) n (omega arith))

blocks_from-covered :
    (size k n i : ℕ)
    → k * block_size ≤ i
    → i < size
    → i < (k + n) * block_size
    → covered i (blocks_from size k n) ≡ true
unfolding blocks_from
blocks_from-covered size k zero i h l m = absurd (omega arith)
blocks_from-covered size k (suc n) i h l m = elim (Bool-cases (ltb i (suc k * block_size))) [
  | inl t ↦ ground arith
  | inr t ↦
      ground
        (arith, blocks_from-covered size (suc k) n i (omega (arith, ltb→ge _ _ t)) l (omega arith))
]

module _ (P : Platform) where
  -- The loop changes the offset and the messages alone.
  pub request_blocks-only :
      (n : ℕ) (s : PeerProtocol P)
      → (offset : ℕ) × ((messages : List (List ℕ)) × (request_blocks P n s
            ≡ record s { offset = offset; messages = messages }))
  unfolding request_blocks request_block
  request_blocks-only zero s = (s.offset, (s.messages, refl))
  request_blocks-only (suc n) s = elim (Bool-cases (ltb s.offset s.piece_size)) [
    | inl t ↦
        let (offset, (messages, e)) = request_blocks-only n (request_block P s) in
        (offset, (messages, rw t e))
    | inr t ↦ (s.offset, (s.messages, rw t refl))
  ]

  Requested : PeerProtocol P → ℕ → PeerProtocol P → Type 0
  Requested s k s' =
      (s'.messages
        ≡ s.messages
          ++ requests_for s.piece_index
              (blocks_from s.piece_size k (number_of_blocks s.piece_size - k)))
      × (s.piece_size ≤ s'.offset)
      × (s'.piece_index ≡ s.piece_index)
      × (s'.piece_size ≡ s.piece_size)

  block_requested :
      (k : ℕ) (s : PeerProtocol P)
      → s.piece_size + block_size < 2 ^ 64
      → s.offset ≡ k * block_size
      → s.offset < s.piece_size
      → request_block P s
        ≡ record (push_message P
            (request_message
              (s.piece_index % u32_mod)
              (k * block_size % u32_mod)
              (min block_size (s.piece_size - k * block_size) % u32_mod))
            s) { offset = suc k * block_size }
  unfolding request_block
  block_requested k s l e m =
      let same_size = requested_size s.piece_size s.offset k l e m in
      let next : add64 s.offset block_size ≡ suc k * block_size = omega arith in
      rw (same_size, next, e) refl

  nothing_left :
      (k : ℕ) (s : PeerProtocol P)
      → s.offset ≡ k * block_size
      → s.piece_size ≤ s.offset
      → Requested s k s
  unfolding Requested blocks_from
  nothing_left k s e l =
      let none_left : number_of_blocks s.piece_size - k ≡ 0 = omega arith in
      (rw (none_left, append-nil s.messages) refl, l, refl, refl)

  one_requested :
      (k n size index : ℕ) (messages : List (List ℕ))
      → n ≡ suc (number_of_blocks size - suc k)
      → (messages
            ++ request_message
                (index % u32_mod)
                (k * block_size % u32_mod)
                (min block_size (size - k * block_size) % u32_mod)
              ∷ [])
          ++ requests_for index (blocks_from size (suc k) (number_of_blocks size - suc k))
        ≡ messages ++ requests_for index (blocks_from size k n)
  unfolding blocks_from
  one_requested k n size index messages e = rw (e, append_assoc) refl

  request_blocks-Requested :
      (n k : ℕ) (s : PeerProtocol P)
      → s.piece_size + block_size < 2 ^ 64
      → s.offset ≡ k * block_size
      → number_of_blocks s.piece_size ≤ n + k
      → Requested s k (request_blocks P n s)
  unfolding Requested request_blocks
  request_blocks-Requested zero k s l e f = nothing_left k s e (omega arith)
  request_blocks-Requested (suc n) k s l e f = elim (Bool-cases (ltb s.offset s.piece_size)) [
    | inl t ↦
        let m = ltb→lt s.offset s.piece_size t in
        let (messages, ends, same_index, same_size) =
          request_blocks-Requested n (suc k)
            (record (push_message P
              (request_message (s.piece_index % u32_mod) (k * block_size % u32_mod)
                (min block_size (s.piece_size - k * block_size) % u32_mod))
              s) { offset = suc k * block_size })
            l refl (omega arith) in
        rw t (
          rw (block_requested k s l e m) (
            messages ∙ one_requested k _ s.piece_size s.piece_index s.messages (omega arith),
            ends,
            same_index,
            same_size,
          ))
    | inr t ↦ rw t (nothing_left k s e (ltb→ge _ _ t))
  ]

  -- For a piece below 2^64 - 2^14 bytes, create_request puts exactly one request for each block of
  -- 2^14 bytes behind the waiting messages, in order, the last one cut to the end of the piece.
  -- These blocks cover the piece, and m_offset ends behind it.
  pub create_request-requests :
      (s : PeerProtocol P)
      → s.piece_size + block_size < 2 ^ 64
      → ((create_request P s).messages
          ≡ s.messages ++ requests_for s.piece_index (blocks_of s.piece_size))
        × AreRequested s.piece_size (blocks_of s.piece_size)
        × ((i : ℕ) → i < s.piece_size → covered i (blocks_of s.piece_size) ≡ true)
        × (s.piece_size ≤ (create_request P s).offset)
  unfolding create_request Requested
  create_request-requests s l =
      let (messages, ends, _, _) =
        request_blocks-Requested (s.piece_size / block_size + 1) 0 (record s { offset = 0 }) l refl
          (omega arith) in
      (
        messages
            ∙ ap (λ n. s.messages ++ requests_for s.piece_index (blocks_from s.piece_size 0 n))
                (omega arith),
        blocks_from-AreRequested s.piece_size 0 (number_of_blocks s.piece_size) (omega arith),
        (λ i h.
            blocks_from-covered s.piece_size 0 (number_of_blocks s.piece_size) i (omega arith) h
              (omega arith)),
        ends,
      )
