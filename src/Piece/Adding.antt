-- ===== src/Piece/Adding.antt =====
-- Piece::add: what a block of bytes does to a piece.
use torrent_client.Base.{
  ℕ, ◌+◌, ◌-◌, ◌≤◌, ◌<◌, ◌≡◌, refl, sym, ap, subst, ◌∙◌, ◌⊎◌, inl, inr, List, ◌∷◌, Option, none,
  some, Bool, true, ◌||◌, ◌&&◌, not, arith, u64_mod, sub64, minus_one, leb, ltb, ==_iff, ◌==◌,
  if◌then◌else◌, Bool-cases, ltb→lt, ltb→ge, Outcome,
}
use torrent_client.Piece.Overlap.{Block, precedes, block, modified}
use torrent_client.Piece.BlockSet.{upper_bound, prior, or_else}
use torrent_client.Piece.Cutting.{end_of, in_block, EndsBefore}
use torrent_client.Piece.Cover.{covered, Chain, IsPositive}
use torrent_client.Piece.Placing.{
  Placed, placing, place_first, prior-behind, prior-front, upper_bound-behind, upper_bound-front,
}
use torrent_client.Piece.Trimming.{Holds, EndsBy, Reaches}
use torrent_client.Piece.Neighbours.{covered-neighbours, UpTo}
use torrent_client.Piece.{
  Piece, Buffer, add, add_to, add_block, copy, place_before, place_after, place,
}

-- The piece takes bytes for this index: it has none yet, or has that one.
abbrev pub Accepts : Piece → ℕ → Type 0
Accepts p id = (p.id ≡ minus_one) ⊎ (p.id ≡ id)

module _ (p : Piece) (m : Buffer) (id : ℕ) (source : ℕ → ℕ) (size offset : ℕ) where
  abbrev accepted : ℕ → Outcome Piece
  accepted k = add_block (record p { id = k }) m source (block offset size) p.blocks

  add_to-accepted : Accepts p id → add_to p (some m) id source size offset ≡ accepted id
  unfolding add_to
  add_to-accepted (inl h) = rw ((==_iff p.id minus_one).1 h)
  add_to-accepted (inr h) = elim (Bool-cases (p.id == minus_one)) [
    | inl t ↦ rw t
    | inr t ↦ rw (t, (==_iff p.id id).1 h) (ap accepted h)
  ]

  -- Past its guards, add works on the piece under the given index.
  pub add-accepted : p.buffer ≡ some m → Accepts p id → add id source size offset p ≡ accepted id
  unfolding add
  add-accepted e h = ap (λ o. add_to p o id source size offset) e ∙ add_to-accepted h

-- The block `b` of `source` has become part of the piece.
pub record Added (p : Piece) (m : Buffer) (source : ℕ → ℕ) (b : Block) (p' : Piece) (m' : Buffer)
    : Type 0 where
  pub buffer : p'.buffer ≡ some m'
  pub capacity : m'.capacity ≡ m.capacity
  pub id : p'.id ≡ p.id
  pub full_piece_size : p'.full_piece_size ≡ p.full_piece_size
  pub chain : Chain 0 m.capacity p'.blocks
  pub covers : (i : ℕ) → covered i p'.blocks ≡ (covered i p.blocks || in_block i b)
  pub positive : IsPositive p.blocks → IsPositive p'.blocks
  pub bytes :
      (i : ℕ)
      → m'.byte_at i
        ≡ (if in_block i b && not (covered i p.blocks) then source (i - b.offset) else m.byte_at i)

pub copy_in_bounds :
    (m : Buffer) (to from n : ℕ) (source : ℕ → ℕ)
    → to + n ≤ m.capacity
    → (m' : Buffer) × (copy m to source from n ≡ some m')
      × (m'.capacity ≡ m.capacity)
      × ((i : ℕ)
          → m'.byte_at i
            ≡ (if leb to i && ltb i (to + n) then source (from + (i - to)) else m.byte_at i))
unfolding copy
copy_in_bounds m to from n source h = (
  record m {
    byte_at = λ i. if leb to i && ltb i (to + n) then source (from + (i - to)) else m.byte_at i;
  },
  ground arith,
  refl,
  λ i. refl,
)

-- The block that is left after the cuts goes into the set.
placed :
    (top : ℕ) (b b' x : Block) (xs : List Block)
    → 0 < b'.size
    → b.offset ≤ b'.offset
    → end_of b' ≤ top
    → top < u64_mod
    → Chain 0 top (x ∷ xs)
    → EndsBy (prior b (x ∷ xs)) b'
    → EndsBefore b' (upper_bound b (x ∷ xs))
    → (bs' : List Block) × (place b' (prior b (x ∷ xs)) (upper_bound b (x ∷ xs)) (x ∷ xs)
        ≡ some bs')
      × Placed 0 top b' (x ∷ xs) bs'
unfolding place
placed top b b' x xs s o e f c hp hn = elim (Bool-cases (precedes b x)) [
  | inl t ↦
      let p = prior-behind b x xs (ltb→lt _ _ t) in
      let n = upper_bound-behind b x xs (ltb→lt _ _ t) in
      rw (p, n)
        (
          place_before b' x (x ∷ xs),
          refl,
          place_first 0 top b' s e f x xs c (omega arith) (rw n at hn),
        )
  | inr t ↦
      let p = prior-front b x xs (ltb→ge _ _ t) in
      let n = upper_bound-front b x xs (ltb→ge _ _ t) in
      rw (p, n)
        (
          place_after b' (or_else (prior b xs) x) (upper_bound b xs) (x ∷ xs),
          refl,
          placing 0 top b b' x xs s e f c o (ltb→ge _ _ t) (rw p at hp) (rw n at hn),
        )
]

pub place_lem :
    (top : ℕ) (b b' : Block) (bs : List Block) (x : Block) (xs : List Block)
    → bs ≡ x ∷ xs
    → 0 < b'.size
    → b.offset ≤ b'.offset
    → end_of b' ≤ top
    → top < u64_mod
    → Chain 0 top bs
    → EndsBy (prior b bs) b'
    → EndsBefore b' (upper_bound b bs)
    → (bs' : List Block) × (place b' (prior b bs) (upper_bound b bs) bs ≡ some bs')
      × Placed 0 top b' bs bs'
place_lem top b b' bs x xs q s o e f =
    subst
      (λ l.
        Chain 0 top l
        → EndsBy (prior b l) b'
        → EndsBefore b' (upper_bound b l)
        → (bs' : List Block) × (place b' (prior b l) (upper_bound b l) l ≡ some bs')
          × Placed 0 top b' l bs')
      (sym q) (placed top b b' x xs s o e f)

pub copied_byte :
    (m : Buffer) (source : ℕ → ℕ) (b b' : Block) (old : Bool) (i : ℕ)
    → b.offset ≤ b'.offset
    → b'.offset < u64_mod
    → in_block i b' ≡ (in_block i b && not old)
    → (if in_block i b' then source (sub64 b'.offset b.offset + (i - b'.offset)) else m.byte_at i)
      ≡ (if in_block i b && not old then source (i - b.offset) else m.byte_at i)
copied_byte m source b b' old i h f e = elim (Bool-cases (in_block i b')) [
  | inl t ↦ rw (t, sym e ∙ t) (ap source (ground arith))
  | inr t ↦ rw (t, sym e ∙ t)
]

-- Where the cuts went through, the rest is what the set does not cover of the block.
pub cut_bytes :
    (top : ℕ) (b b' : Block) (bs : List Block)
    → Chain 0 top bs
    → Holds (prior b bs) (upper_bound b bs) b (modified b')
    → (i : ℕ) → in_block i b' ≡ (in_block i b && not (covered i bs))
cut_bytes top b b' bs c h i = elim (Bool-cases (in_block i b)) [
  | inl t ↦
      rw (covered-neighbours b i 0 top bs c (ground arith) (reached (upper_bound b bs) h.4 t))
        (h.5 i)
  | inr t ↦ ground (arith, h.5 i)
]
  where
    reached : (next : Option Block) → Reaches b next → in_block i b ≡ true → UpTo i next
    reached none r t = tt
    reached (some y) r t = ground arith
