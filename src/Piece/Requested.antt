-- ===== src/Piece/Requested.antt =====
-- Piece::add for the blocks that PeerProtocol::create_request asks for.
use torrent_client.Base.{
  ℕ, suc, ◌+◌, ◌-◌, ◌*◌, ◌/◌, ◌^◌, ◌≤◌, ◌<◌, ◌≡◌, refl, ap, ◌∙◌, inl, inr, List, [], ◌∷◌, some,
  Bool, true, false, ◌||◌, arith, u64_mod, Outcome, ok, throws, undefined, ◌>>=◌,
}
use Prim.Native.Nat.{min}
use torrent_client.Piece.Overlap.{Block}
use torrent_client.Piece.Cutting.{end_of, in_block}
use torrent_client.Piece.Cover.{covered, Chain, IsPositive, covered_below}
use torrent_client.Piece.Receiving.{HasInside, Receives, add-Receives}
use torrent_client.Piece.Assembly.{
  receive_all, AreIn, Holds, step, received-Holds, Holds-get, init-Holds, init-size,
}
use torrent_client.Piece.{Piece, Buffer, init, full, get}

-- A request: the block `k` of 2^14 bytes, cut to the end of the piece.
abbrev pub IsRequested : ℕ → Block → Type 0
IsRequested n b =
    (k : ℕ) × (k * 2 ^ 14 < n) × (b.offset ≡ k * 2 ^ 14) × (b.size ≡ min (2 ^ 14) (n - k * 2 ^ 14))

abbrev pub AreRequested : ℕ → List Block → Type 0
AreRequested n [] = Unit {0}
AreRequested n (b ∷ bs) = IsRequested n b × AreRequested n bs

pub AreRequested-AreIn : (n : ℕ) (bs : List Block) → AreRequested n bs → AreIn n bs
AreRequested-AreIn n [] h = tt
AreRequested-AreIn n (b ∷ bs) ((k, l, o, s), h) =
    (omega arith, omega arith, AreRequested-AreIn n bs h)

-- All bytes of a block of 2^14 bytes have come, or none.
pub IsAligned : ℕ → (ℕ → Bool) → Type 0
IsAligned n came = (i j : ℕ) → i < n → j < n → i / 2 ^ 14 ≡ j / 2 ^ 14 → came i ≡ came j

pub start-IsAligned : (n : ℕ) → IsAligned n (λ i. false)
unfolding IsAligned
start-IsAligned n i j x y e = refl

pub IsAligned-add :
    (n : ℕ) (came : ℕ → Bool) (b : Block)
    → IsAligned n came
    → IsRequested n b
    → IsAligned n (λ i. came i || in_block i b)
unfolding IsAligned
IsAligned-add n came b a (k, l, o, s) i j x y e = ground (arith, a i j x y e)

-- A byte of the inner block has come, and the byte behind it has not.
gap :
    (b : Block) (lo cap : ℕ) (bs : List Block)
    → Chain lo cap bs
    → IsPositive bs
    → HasInside b bs
    → (i j : ℕ) × (b.offset ≤ i)
      × (i < end_of b)
      × (b.offset ≤ j)
      × (j < end_of b)
      × (lo ≤ j)
      × (covered i bs ≡ true)
      × (covered j bs ≡ false)
gap b lo top [] c q h = absurd h
gap b lo top (y ∷ ys) c q (inl h) = (
  y.offset,
  end_of y,
  omega arith,
  omega arith,
  omega arith,
  omega arith,
  omega arith,
  ground arith,
  ground (arith, covered_below (suc (end_of y)) top (end_of y) ys c.2),
)
gap b lo top (y ∷ ys) c q (inr h) =
    let (i, j, h1, h2, h3, h4, h5, h6, h7) = gap b (suc (end_of y)) top ys c.2 q.1 h in
    (i, j, h1, h2, h3, h4, omega arith, ground arith, ground arith)

not_inside :
    (n : ℕ) (came : ℕ → Bool) (b : Block) (cap : ℕ) (bs : List Block)
    → IsAligned n came
    → IsRequested n b
    → Chain 0 cap bs
    → IsPositive bs
    → ((i : ℕ) → covered i bs ≡ came i)
    → HasInside b bs
    → ⊥
unfolding IsAligned
not_inside n came b top bs a (k, l, o, s) c q e h =
    let (i, j, h1, h2, h3, h4, h5, h6, h7) = gap b 0 top bs c q h in
    let same = a i j (omega arith) (omega arith) (omega arith) in ground (arith, e i, e j)

-- One more request was not refused.
pub requested_step :
    (id : ℕ) (content : ℕ → ℕ) (came : ℕ → Bool) (n : ℕ) (b : Block) (p : Piece) (m : Buffer)
    (o : Outcome Piece)
    → Holds id content came p m
    → p.full_piece_size ≡ n
    → IsAligned n came
    → IsRequested n b
    → Receives p m id (λ i. content (b.offset + i)) b o
    → (p' : Piece) × (m' : Buffer) × (o ≡ ok p')
      × Holds id content (λ i. came i || in_block i b) p' m'
      × (p'.full_piece_size ≡ n)
requested_step id content came n b p m (ok p') h s a q r =
    let (m', h', s') = step id content came n b p m (ok p') h s r in (p', m', refl, h', s')
requested_step id content came n b p m (throws e p') h s a q (x, y, z) =
    absurd (not_inside n came b m.capacity p.blocks a q h.valid.chain h.valid.positive h.came_iff z)
requested_step id content came n b p m undefined h s a q r = absurd r

none_refused :
    (id : ℕ) (content : ℕ → ℕ) (n : ℕ) (bs : List Block) (came : ℕ → Bool) (p : Piece) (m : Buffer)
    → Holds id content came p m
    → p.full_piece_size ≡ n
    → IsAligned n came
    → AreRequested n bs
    → (p' : Piece) × (receive_all id content bs p ≡ ok p')
none_refused id content n [] came p m h s a q = (p, refl)
none_refused id content n (b ∷ bs) came p m h s a (q, qs) =
    let (positive, inside, _) = AreRequested-AreIn n (b ∷ []) (q, tt) in
    let received =
      add-Receives p m id (λ i. content (b.offset + i)) b.size b.offset h.valid (inr h.has_id)
        positive (omega (arith, h.valid.sized)) in
    let (p', m', e, h', s') = requested_step id content came n b p m _ h s a q received in
    let (p'', e') =
      none_refused id content n bs (λ i. came i || in_block i b) p' m' h' s'
        (IsAligned-add n came b a q) qs in
    (p'', ap (λ o. o >>= receive_all id content bs) e ∙ e')

-- The answers to the requests for a piece may come in any order and more than once: none is refused,
-- and when they cover the piece, it is full and get hands out the content.
pub requested-assembled :
    (id size : ℕ) (garbage content : ℕ → ℕ) (p₀ : Piece) (bs : List Block)
    → 0 < size
    → size < u64_mod
    → AreRequested size bs
    → ((i : ℕ) → i < size → covered i bs ≡ true)
    → (p : Piece) × (receive_all id content bs (init id size garbage p₀) ≡ ok p)
      × (full p ≡ true)
      × ((m : Buffer) × ((get p).0 ≡ some m) × ((i : ℕ) → i < size → m.byte_at i ≡ content i))
unfolding IsAligned
requested-assembled id size garbage content p₀ bs z l q c =
    let (p, e) =
      none_refused id content size bs (λ i. false) (init id size garbage p₀) _
        (init-Holds id size garbage content p₀ l) (init-size id size garbage p₀) (λ i j x y e. refl)
        q in
    let (m, h, s) =
      received-Holds id size garbage content p₀ p bs l (AreRequested-AreIn size bs q) e in
    let (fills, gives) = Holds-get id content (λ i. covered i bs) size p m z h s in
    let filled = fills.1 c in (p, e, filled, gives filled)
