-- ===== src/Piece/Receiving.antt =====
-- What Piece::add and Piece::full promise for a piece that init has set up.
use torrent_client.Base.{
  ℕ, suc, ◌+◌, ◌-◌, ◌≤◌, ◌<◌, ◌≡◌, ◌↔◌, refl, sym, ◌∙◌, Bool-cases, ◌⊎◌, inl, inr, List, [], ◌∷◌,
  Option, none, some, true, ◌||◌, ◌&&◌, not, arith, u64_mod, if◌then◌else◌, Outcome, ok, throws,
  undefined, right_in_self,
}
use torrent_client.Piece.Overlap.{Block, precedes, block, Modified, modified}
use torrent_client.Piece.Overlap
use torrent_client.Piece.BlockSet.{upper_bound, prior}
use torrent_client.Piece.Cutting.{end_of, in_block}
use torrent_client.Piece.Cover.{covered, Chain, IsPositive, covered_below}
use torrent_client.Piece.Trimming.{Holds, StartsAfter, trim_both-Holds}
use torrent_client.Piece.Neighbours.{upper_bound-Found, prior-StartsBy, upper_bound-StartsAfter}
use torrent_client.Piece.Adding.{Accepts, add-accepted}
use torrent_client.Piece.Storing.{Result, add_block-Result}
use torrent_client.Piece.{Piece, Buffer, init, add, add_block, store, full, first_has_size}

-- A piece with its buffer: the received ranges are in order inside it, and none is empty.
pub record IsValid (p : Piece) (m : Buffer) : Type 0 where
  pub held : p.buffer ≡ some m
  pub sized : m.capacity ≡ p.full_piece_size
  pub bounded : m.capacity < u64_mod
  pub chain : Chain 0 m.capacity p.blocks
  pub positive : IsPositive p.blocks

pub init-IsValid :
    (id size : ℕ) (garbage : ℕ → ℕ) (p : Piece)
    → size < u64_mod
    → IsValid (init id size garbage p) (record { capacity = size; byte_at = garbage })
unfolding init
init-IsValid id size garbage p h = record {
  held = refl;
  sized = refl;
  bounded = h;
  chain = tt;
  positive = tt;
}

-- A block of the set lies inside `b` and touches neither end.
abbrev pub HasInside : Block → List Block → Type 0
HasInside b [] = ⊥
HasInside b (y ∷ ys) = ((b.offset < y.offset) × (end_of y < end_of b)) ⊎ HasInside b ys

upper_bound-HasInside :
    (b y : Block) (bs : List Block)
    → upper_bound b bs ≡ some y
    → end_of y < end_of b
    → HasInside b bs
unfolding upper_bound
upper_bound-HasInside b y [] e h = cc
upper_bound-HasInside b y (x ∷ xs) e h = ground (arith, upper_bound-HasInside b y xs)

HasInside-upper_bound :
    (b : Block) (lo top : ℕ) (bs : List Block)
    → Chain lo top bs
    → HasInside b bs
    → (z : Block) × (upper_bound b bs ≡ some z) × (end_of z < end_of b)
unfolding upper_bound
HasInside-upper_bound b lo top [] c h = absurd h
HasInside-upper_bound b lo top (x ∷ xs) c (inl h) = (x, ground arith, h.1)
HasInside-upper_bound b lo top (x ∷ xs) c (inr h) =
    let (z, e, l) = HasInside-upper_bound b (suc (end_of x)) top xs c.2 h in
    elim (Bool-cases (precedes b x)) [
      | inl t ↦ (
        x,
        ground arith,
        ground (arith, rw e at (upper_bound-Found b (suc (end_of x)) top xs c.2)),
      )
      | inr t ↦ (z, ground arith, l)
    ]

conflict :
    (b z : Block) (prev next : Option Block) (r : Modified)
    → StartsAfter b prev next
    → Holds prev next b r
    → next ≡ some z
    → end_of z < end_of b
    → r ≡ Overlap.right_in_self
conflict b z prev next Overlap.right_in_self n h e l = refl
conflict b z prev none Overlap.self_in_right n h e l = cc
conflict b z none (some y) Overlap.self_in_right n h e l = cc (h.1)
conflict b z (some w) (some y) Overlap.self_in_right n (x, k, lt, _) e l = absurd (ground arith)
conflict b z prev none (modified b') n h e l = cc
conflict b z prev (some y) (modified b') n h e l = absurd (ground (arith, h.4))

refused_block :
    (p : Piece) (m : Buffer) (source : ℕ → ℕ) (b : Block) (bs : List Block)
    → m.capacity < u64_mod
    → end_of b ≤ m.capacity
    → 0 < b.size
    → Chain 0 m.capacity bs
    → HasInside b bs
    → add_block p m source b bs ≡ throws right_in_self p
unfolding add_block store
refused_block p m source b [] f i s c h = absurd h
refused_block p m source b (x ∷ xs) f i s c h =
    let (z, e, l) = HasInside-upper_bound b 0 m.capacity (x ∷ xs) c h in
    let n = upper_bound-StartsAfter b m.capacity f 0 (x ∷ xs) c in
    let held =
      trim_both-Holds b (omega arith) s (prior b (x ∷ xs)) (upper_bound b (x ∷ xs))
        (prior-StartsBy b m.capacity f 0 (x ∷ xs) c) n in
    rw (conflict b z (prior b (x ∷ xs)) (upper_bound b (x ∷ xs)) _ n held e l)

-- The promise of add, for each way that it can end.
abbrev pub Receives : Piece → Buffer → ℕ → (ℕ → ℕ) → Block → Outcome Piece → Type 0
Receives p m id source b (ok p') =
    (m' : Buffer) × IsValid p' m'
    × (p'.id ≡ id)
    × (p'.full_piece_size ≡ p.full_piece_size)
    × ((i : ℕ) → covered i p'.blocks ≡ (covered i p.blocks || in_block i b))
    × ((i : ℕ)
        → m'.byte_at i ≡ (
            if in_block i b && not (covered i p.blocks)
            then source (i - b.offset)
            else m.byte_at i))
Receives p m id source b (throws e p') =
    (e ≡ right_in_self) × (p' ≡ record p { id = id }) × HasInside b p.blocks
Receives p m id source b undefined = ⊥

Result-Receives :
    (p : Piece) (m : Buffer) (id : ℕ) (source : ℕ → ℕ) (b : Block) (o : Outcome Piece)
    → IsValid p m
    → Result (record p { id = id }) m source b o
    → Receives p m id source b o
Result-Receives p m id source b (ok p') v (m', a) = (
  m',
  record {
    held = a.buffer;
    sized = a.capacity ∙ v.sized ∙ sym a.full_piece_size;
    bounded = rw a.capacity v.bounded;
    chain = rw a.capacity a.chain;
    positive = a.positive v.positive;
  },
  a.id,
  a.full_piece_size,
  a.covers,
  a.bytes,
)
Result-Receives p m id source b (throws e p') v (h, k, y, n, l) =
    (h, k, upper_bound-HasInside b y p.blocks n l)
Result-Receives p m id source b undefined v h = h

module _ (p : Piece) (m : Buffer) (id : ℕ) (source : ℕ → ℕ) (size offset : ℕ) (valid : IsValid p m)
    (accepts : Accepts p id) (some_bytes : 0 < size) (inside : offset + size ≤ m.capacity) where
  -- For a non-empty range inside a valid piece whose m_id is -1 or the given id, add never goes out
  -- of bounds. Either it takes the bytes that were missing, keeps those that were there, and the
  -- piece stays valid; or it refuses the range, with the set unchanged, because a received range
  -- lies strictly inside it.
  pub add-Receives : Receives p m id source (block offset size) (add id source size offset p)
  add-Receives = rw (add-accepted p m id source size offset valid.held accepts) (
      Result-Receives p m id source (block offset size) _ valid (
        add_block-Result (record p { id = id }) m source (block offset size) valid.held
          valid.bounded inside some_bytes p.blocks refl valid.chain))

  -- add refuses each non-empty range inside a valid piece, whose m_id is -1 or the given id, that
  -- has a received range strictly inside it, and then only m_id may have changed.
  pub add_refuses :
      HasInside (block offset size) p.blocks
      → add id source size offset p ≡ throws right_in_self (record p { id = id })
  add_refuses h =
      add-accepted p m id source size offset valid.held accepts
      ∙ refused_block (record p { id = id }) m source (block offset size) p.blocks valid.bounded
          inside some_bytes valid.chain h

first_has_size_iff :
    (n : ℕ) (bs : List Block)
    → Chain 0 n bs
    → 0 < n
    → (first_has_size n bs ≡ true) ↔ ((i : ℕ) → i < n → covered i bs ≡ true)
first_has_size_iff n [] c h = (λ e. cc, λ all. cc (all 0 h))
first_has_size_iff n (b ∷ bs) c h = (
  λ e i l. ground arith,
  λ all. ground (
    arith,
    all 0,
    all (end_of b),
    covered_below (suc (end_of b)) n 0 bs c.2,
    covered_below (suc (end_of b)) n (end_of b) bs c.2,
  ),
)

-- A valid piece of some bytes is full exactly when every byte of it has arrived.
pub full_iff :
    (p : Piece) (m : Buffer)
    → IsValid p m
    → 0 < p.full_piece_size
    → (full p ≡ true) ↔ ((i : ℕ) → i < p.full_piece_size → covered i p.blocks ≡ true)
unfolding full
full_iff p m v h = first_has_size_iff p.full_piece_size p.blocks (rw (← v.sized) v.chain) h
