-- ===== src/Piece/Assembly.antt =====
-- A whole piece, from Piece::init over any sequence of calls of Piece::add to Piece::get.
use torrent_client.Base.{
  ℕ, ◌+◌, ◌-◌, ◌≤◌, ◌<◌, ◌≡◌, ◌↔◌, refl, sym, ap, subst, ◌∙◌, inl, inr, List, [], ◌∷◌, some, Bool,
  true, false, ◌||◌, ◌&&◌, not, arith, u64_mod, Outcome, ok, throws, undefined, ◌>>=◌, Bool-cases,
  if◌then◌else◌,
}
use torrent_client.Piece.Overlap.{Block}
use torrent_client.Piece.Cutting.{end_of, in_block}
use torrent_client.Piece.Cover.{covered}
use torrent_client.Piece.Receiving.{IsValid, Receives, add-Receives, init-IsValid, full_iff}
use torrent_client.Piece.{Piece, Buffer, init, add, full, get}

-- The blocks arrive one after another, each with its bytes of `content`; an exception ends it.
abbrev pub receive_all : ℕ → (ℕ → ℕ) → List Block → Piece → Outcome Piece
receive_all id content [] p = ok p
receive_all id content (b ∷ bs) p =
    add id (λ i. content (b.offset + i)) b.size b.offset p >>= receive_all id content bs

-- Non-empty ranges inside a piece of that size.
abbrev pub AreIn : ℕ → List Block → Type 0
AreIn n [] = Unit {0}
AreIn n (b ∷ bs) = (0 < b.size) × (end_of b ≤ n) × AreIn n bs

-- What is in the buffer is the content, and what is covered is what has come.
pub record Holds (id : ℕ) (content : ℕ → ℕ) (came : ℕ → Bool) (p : Piece) (m : Buffer)
    : Type 0 where
  pub valid : IsValid p m
  pub has_id : p.id ≡ id
  pub came_iff : (i : ℕ) → covered i p.blocks ≡ came i
  pub content_at : (i : ℕ) → covered i p.blocks ≡ true → m.byte_at i ≡ content i

-- The outcome of a run: such a piece, or the refusal of a block.
abbrev pub Ends : ℕ → (ℕ → ℕ) → ℕ → (ℕ → Bool) → Outcome Piece → Type 0
Ends id content n came (ok p) = (m : Buffer) × Holds id content came p m × (p.full_piece_size ≡ n)
Ends id content n came (throws e p) = Unit {0}
Ends id content n came undefined = ⊥

next_content :
    (content : ℕ → ℕ) (b : Block) (i old : ℕ) (c : Bool)
    → (c ≡ true → old ≡ content i)
    → (c || in_block i b) ≡ true
    → (if in_block i b && not c then content (b.offset + (i - b.offset)) else old) ≡ content i
next_content content b i old c h t = elim (Bool-cases c) [
  | inl k ↦ rw k (ground (arith, h k))
  | inr k ↦ let q : in_block i b ≡ true = rw k at t in rw (k, q) (ap content (ground arith))
]

-- One more block.
pub step :
    (id : ℕ) (content : ℕ → ℕ) (came : ℕ → Bool) (n : ℕ) (b : Block) (p : Piece) (m : Buffer)
    (o : Outcome Piece)
    → Holds id content came p m
    → p.full_piece_size ≡ n
    → Receives p m id (λ i. content (b.offset + i)) b o
    → Ends id content n (λ i. came i || in_block i b) o
step id content came n b p m (ok p') h s (m', v, k, s', covers, bytes) = (
  m',
  record {
    valid = v;
    has_id = k;
    came_iff = λ i. ground (arith, covers i, h.came_iff i);
    content_at = λ i t.
        bytes i
        ∙ next_content content b i (m.byte_at i) (covered i p.blocks) (h.content_at i)
            (sym (covers i) ∙ t);
  },
  s' ∙ s,
)
step id content came n b p m (throws e p') h s r = tt
step id content came n b p m undefined h s r = r

Ends-ext :
    (id : ℕ) (content : ℕ → ℕ) (n : ℕ) (came came' : ℕ → Bool) (o : Outcome Piece)
    → ((i : ℕ) → came i ≡ came' i)
    → Ends id content n came o
    → Ends id content n came' o
Ends-ext id content n came came' (ok p) e (m, h, s) = (
  m,
  record {
    valid = h.valid;
    has_id = h.has_id;
    came_iff = λ i. h.came_iff i ∙ e i;
    content_at = h.content_at;
  },
  s,
)
Ends-ext id content n came came' (throws x p) e h = tt
Ends-ext id content n came came' undefined e h = h

Ends-bind :
    (id : ℕ) (content : ℕ → ℕ) (n : ℕ) (came came' : ℕ → Bool) (o : Outcome Piece)
    (f : Piece → Outcome Piece)
    → Ends id content n came o
    → ((p : Piece) (m : Buffer)
        → Holds id content came p m
        → p.full_piece_size ≡ n
        → Ends id content n came' (f p))
    → Ends id content n came' (o >>= f)
Ends-bind id content n came came' (ok p) f (m, h, s) k = k p m h s
Ends-bind id content n came came' (throws x p) f h k = tt
Ends-bind id content n came came' undefined f h k = h

receive_all-Ends :
    (id : ℕ) (content : ℕ → ℕ) (n : ℕ) (bs : List Block) (came : ℕ → Bool) (p : Piece) (m : Buffer)
    → Holds id content came p m
    → p.full_piece_size ≡ n
    → AreIn n bs
    → Ends id content n (λ i. came i || covered i bs) (receive_all id content bs p)
receive_all-Ends id content n [] came p m h s r = (
  m,
  record {
    valid = h.valid;
    has_id = h.has_id;
    came_iff = λ i. ground (arith, h.came_iff i);
    content_at = h.content_at;
  },
  s,
)
receive_all-Ends id content n (b ∷ bs) came p m h s r =
    Ends-ext id content n (λ i. (came i || in_block i b) || covered i bs) _ _ (λ i. ground arith)
      (Ends-bind id content n (λ i. came i || in_block i b) _ _ _
        (step id content came n b p m _ h s (
          add-Receives p m id (λ i. content (b.offset + i)) b.size b.offset h.valid (inr h.has_id)
            r.0 (omega (arith, h.valid.sized))))
        (λ p' m' h' s'.
          receive_all-Ends id content n bs (λ i. came i || in_block i b) p' m' h' s' r.2))

pub init-Holds :
    (id size : ℕ) (garbage content : ℕ → ℕ) (p : Piece)
    → size < u64_mod
    → Holds id content
        (λ i. false)
        (init id size garbage p)
        (record { capacity = size; byte_at = garbage })
unfolding init
init-Holds id size garbage content p h = record {
  valid = init-IsValid id size garbage p h;
  has_id = refl;
  came_iff = λ i. refl;
  content_at = λ i t. cc;
}

pub init-size :
    (id size : ℕ) (garbage : ℕ → ℕ) (p : Piece) → (init id size garbage p).full_piece_size ≡ size
unfolding init
init-size id size garbage p = refl

-- What such a piece hands out, once it is full.
pub Holds-get :
    (id : ℕ) (content : ℕ → ℕ) (came : ℕ → Bool) (size : ℕ) (p : Piece) (m : Buffer)
    → 0 < size
    → Holds id content came p m
    → p.full_piece_size ≡ size
    → ((full p ≡ true) ↔ ((i : ℕ) → i < size → came i ≡ true))
      × (full p ≡ true
          → (m : Buffer) × ((get p).0 ≡ some m) × ((i : ℕ) → i < size → m.byte_at i ≡ content i))
unfolding get
Holds-get id content came size p m z h s =
    let (to, from) = full_iff p m h.valid (omega arith) in
    (
      (
        λ t i l. sym (h.came_iff i) ∙ to t i (omega arith),
        λ all. from (λ i l. h.came_iff i ∙ all i (omega arith)),
      ),
      λ t. (m, h.valid.held, λ i l. h.content_at i (to t i (omega arith))),
    )

pub received-Holds :
    (id size : ℕ) (garbage content : ℕ → ℕ) (p₀ p : Piece) (bs : List Block)
    → size < u64_mod
    → AreIn size bs
    → receive_all id content bs (init id size garbage p₀) ≡ ok p
    → (m : Buffer) × Holds id content (λ i. covered i bs) p m × (p.full_piece_size ≡ size)
received-Holds id size garbage content p₀ p bs f r e =
    subst (Ends id content size (λ i. covered i bs)) e (
      receive_all-Ends id content size bs (λ i. false) (init id size garbage p₀) _
        (init-Holds id size garbage content p₀ f) (init-size id size garbage p₀) r)

-- Whatever non-empty ranges of a content arrive after init, in whatever order and however they
-- overlap: if none was refused and the piece is full, then they cover the piece, and get hands out
-- the content.
pub assembled :
    (id size : ℕ) (garbage content : ℕ → ℕ) (p₀ p : Piece) (bs : List Block)
    → 0 < size
    → size < u64_mod
    → AreIn size bs
    → receive_all id content bs (init id size garbage p₀) ≡ ok p
    → full p ≡ true
    → ((i : ℕ) → i < size → covered i bs ≡ true)
      × ((m : Buffer) × ((get p).0 ≡ some m) × ((i : ℕ) → i < size → m.byte_at i ≡ content i))
assembled id size garbage content p₀ p bs z f r e t =
    let (m, h, s) = received-Holds id size garbage content p₀ p bs f r e in
    let (fills, gives) = Holds-get id content (λ i. covered i bs) size p m z h s in
    (fills.0 t, gives t)
