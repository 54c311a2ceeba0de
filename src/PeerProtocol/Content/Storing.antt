-- ===== src/PeerProtocol/Content/Storing.antt =====
-- process_piece with a block from an honest peer.
use torrent_client.Base.{
  ℕ, ◌+◌, ◌-◌, ◌≤◌, ◌<◌, ◌≡◌, sym, ap, ◌∙◌, inl, inr, List, Bool, ◌&&◌, ◌||◌, ◌^◌, not, Bool-cases,
  ge→ltb, ◌==◌, ==_iff, if◌then◌else◌, Option, some, arith, sub64, minus_one, Outcome, ok, throws,
  undefined, ◌>>=◌, length,
}
use torrent_client.Platform.{Platform}
use torrent_client.Messages.{ntohl_at}
use torrent_client.Piece.{Piece, Buffer}
use torrent_client.Piece
use torrent_client.Piece.Overlap.{block}
use torrent_client.Piece.Cutting.{in_block}
use torrent_client.Piece.Cover.{covered}
use torrent_client.Piece.Receiving.{Receives, add-Receives}
use torrent_client.Piece.Assembly.{Holds, Ends as PieceEnds, step, Holds-get}
use torrent_client.Files.{File, write_piece}
use torrent_client.PeerProtocol.{PeerProtocol, bytes_from, next_piece}
use torrent_client.PeerProtocol.Handlers.{
  store_files, write_buffer, finish_piece, store_piece, finish_if_full, add_bytes, process_piece,
}
use torrent_client.PeerProtocol.Content.{
  Torrent, Fits, IsStocked, IsBusy, Works, Agrees, Writes, Saves, returned, threw, Keeps, Ends,
  IsBlock,
}
use torrent_client.PeerProtocol.Content.Picking.{next_piece-Ends}

agreeing_byte :
    (source source' : ℕ → ℕ) (offset n i old : ℕ) (c : Bool)
    → ((j : ℕ) → j < n → source j ≡ source' j)
    → (if in_block i (block offset n) && c then source (i - offset) else old)
      ≡ (if in_block i (block offset n) && c then source' (i - offset) else old)
agreeing_byte source source' offset n i old c h = ground (arith, h (i - offset))

-- What add receives depends on the bytes of the block alone.
pub Receives-agreeing :
    (p : Piece) (m : Buffer) (id : ℕ) (source source' : ℕ → ℕ) (offset n : ℕ) (o : Outcome Piece)
    → ((j : ℕ) → j < n → source j ≡ source' j)
    → Receives p m id source (block offset n) o
    → Receives p m id source' (block offset n) o
Receives-agreeing p m id source source' offset n (ok p') h (m', v, k, s, covers, bytes) = (
  m',
  v,
  k,
  s,
  covers,
  λ i. bytes i ∙ agreeing_byte source source' offset n i (m.byte_at i) (not (covered i p.blocks)) h,
)
Receives-agreeing p m id source source' offset n (throws e p') h r = r
Receives-agreeing p m id source source' offset n undefined h r = r

module _ (P : Platform) (torrent : Torrent) (fits : Fits torrent) where
  -- Behind the write, the connection looks for its next piece.
  written-Ends :
      (fs : List (File P)) (s : PeerProtocol P) (o : Outcome (List (File P)))
      → IsStocked P torrent s.piece_list
      → Saves P torrent fs s.files
      → Writes P torrent s.files o
      → Ends P torrent fs (
          store_files P s o >>= λ s'.
          next_piece P (record s' { offset = 0; piece_index = minus_one }))
  written-Ends fs s (ok gs) h k w =
      next_piece-Ends P torrent fits fs
        (record s { files = gs; offset = 0; piece_index = minus_one }) h (returned k w)
  written-Ends fs s (throws e gs) h k w = (h, threw k w)
  written-Ends fs s undefined h k w = inl (s.files, (k, w))

  buffer_written-Ends :
      (fs : List (File P)) (s : PeerProtocol P) (b : Option Buffer) (m : Buffer)
      → b ≡ some m
      → Agrees P torrent s.piece_index m.byte_at
      → s.piece_index < torrent.count
      → 0 < s.piece_size
      → s.piece_size ≡ torrent.size s.piece_index
      → IsStocked P torrent s.piece_list
      → Saves P torrent fs s.files
      → Ends P torrent fs (
          write_buffer P s b >>= λ s'.
          next_piece P (record s' { offset = 0; piece_index = minus_one }))
  buffer_written-Ends fs s b m e a r p z h k = rw e (
      written-Ends fs s (write_piece P s.piece_index m.byte_at s.piece_size s.files) h k (
        s.piece_index,
        (
          m.byte_at,
          (
            r,
            (omega arith, (a, ap (λ n. write_piece P s.piece_index m.byte_at n s.files) (sym z))),
          ),
        ),
      ))

  module _ (fs : List (File P)) (s : PeerProtocol P) (stocked : IsStocked P torrent s.piece_list)
      (saves : Saves P torrent fs s.files) (sized : s.piece_size ≡ torrent.size s.piece_index)
      (positive : 0 < s.piece_size) (real : s.piece_index < torrent.count) where
    finish_if_full-Ends :
        (came : ℕ → Bool) (p : Piece) (m : Buffer)
        → Holds s.piece_index (torrent.content s.piece_index) came p m
        → p.full_piece_size ≡ s.piece_size
        → Ends P torrent fs (finish_if_full P (record s { piece = p }))
    unfolding finish_if_full finish_piece
    finish_if_full-Ends came p m h w = elim (Bool-cases (Piece.full p)) [
      | inl t ↦
          let (fills, gives) =
            Holds-get s.piece_index (torrent.content s.piece_index) came s.piece_size p m positive h
              w in
          let (m', e, same) = gives t in
          rw t (
            buffer_written-Ends fs (record s { piece = (Piece.get p).1 }) (Piece.get p).0 m' e
              (λ i l. same i (rw sized l)) real positive sized stocked saves)
      | inr t ↦ rw t (record {
        works = inr (record {
          came = came;
          buffer = m;
          holds = h;
          known = inl real;
          whole = w;
          sized = sized;
          positive = positive;
          unfinished = t;
        });
        stocked = stocked;
        saves = saves;
      })
    ]

    stored-Ends :
        (came : ℕ → Bool) (o : Outcome Piece)
        → PieceEnds s.piece_index (torrent.content s.piece_index) s.piece_size came o
        → Ends P torrent fs (store_piece P s o >>= finish_if_full P)
    stored-Ends came (ok p) (m, h, w) = finish_if_full-Ends came p m h w
    stored-Ends came (throws e p) h = (stocked, saves)
    stored-Ends came undefined h = absurd h

  block_size-eq : (n : ℕ) → 13 < n → n < 2 ^ 64 → sub64 (sub64 n 5) 8 ≡ n - 13
  block_size-eq n l f = omega arith

  busy-Ends :
      (fs : List (File P)) (frame : List ℕ) (s : PeerProtocol P)
      → IsBlock P torrent frame
      → ntohl_at frame 5 ≡ s.piece_index
      → s.piece_index < torrent.count
      → IsBusy P torrent s
      → IsStocked P torrent s.piece_list
      → Saves P torrent fs s.files
      → Ends P torrent fs (add_bytes P frame s >>= finish_if_full P)
  unfolding add_bytes
  busy-Ends fs frame s b e r w h k =
      let n = length frame - 13 in
      let offset = ntohl_at frame 9 in
      let inside : offset + n ≤ w.buffer.capacity =
        omega (arith, b.inside, ap torrent.size e, w.sized, w.whole, w.holds.valid.sized) in
      let received =
        add-Receives s.piece w.buffer s.piece_index (bytes_from frame 13) n offset w.holds.valid
          (inr w.holds.has_id) (omega (arith, b.some_bytes)) inside in
      rw (block_size-eq (length frame) b.some_bytes b.bounded, e)
        (stored-Ends fs s h k w.sized w.positive r (λ i. w.came i || in_block i (block offset n)) _
          (step s.piece_index (torrent.content s.piece_index) w.came s.piece_size (block offset n)
            s.piece w.buffer _ w.holds w.whole
            (Receives-agreeing s.piece w.buffer s.piece_index (bytes_from frame 13) _ offset n _
              (λ j l. b.genuine j l ∙ ap (λ id. torrent.content id (offset + j)) e) received)))

  working-Ends :
      (fs : List (File P)) (frame : List ℕ) (s : PeerProtocol P)
      → IsBlock P torrent frame
      → ntohl_at frame 5 ≡ s.piece_index
      → Works P torrent s
      → IsStocked P torrent s.piece_list
      → Saves P torrent fs s.files
      → Ends P torrent fs (add_bytes P frame s >>= finish_if_full P)
  working-Ends fs frame s b e (inl w) h k = absurd (omega (arith, b.index_fits, e, w.no_index))
  working-Ends fs frame s b e (inr w) h k = elim w.known [
    | inl r ↦ busy-Ends fs frame s b e r w h k
    | inr m ↦ absurd (omega (arith, b.index_fits, e, m))
  ]

  pub process_piece-Ends :
      (fs : List (File P)) (frame : List ℕ) (s : PeerProtocol P)
      → IsBlock P torrent frame
      → Keeps P torrent fs s
      → Ends P torrent fs (process_piece P frame s)
  unfolding process_piece
  process_piece-Ends fs frame s b k =
      let long = b.some_bytes in
      rw (ge→ltb (length frame) 9 (omega arith), ge→ltb (length frame) 13 (omega arith))
        (elim (Bool-cases (ntohl_at frame 5 == s.piece_index)) [
          | inl t ↦ rw t (working-Ends fs frame s b ((==_iff _ _).0 t) k.works k.stocked k.saves)
          | inr t ↦ rw t k
        ])
