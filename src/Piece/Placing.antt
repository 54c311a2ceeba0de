-- ===== src/Piece/Placing.antt =====
-- The set operations of Piece::add on an ordered set.
use torrent_client.Base.{
  ℕ, suc, ◌≤◌, ◌<◌, ◌≡◌, refl, List, [], ◌∷◌, Option, none, some, ◌||◌, arith, add64, u64_mod,
  ltb→lt, ltb→ge, Bool-cases, inl, inr,
}
use torrent_client.Piece.Overlap.{Block, block, precedes}
use torrent_client.Piece.BlockSet.{insert, inserted, erase, upper_bound, prior, or_else}
use torrent_client.Piece.Cutting.{end_of, in_block, EndsBefore}
use torrent_client.Piece.Cover.{covered, Chain, IsPositive}
use torrent_client.Piece.{place_after, place_before, insert_and_close, close}

insert-cons :
    (x b : Block) (bs : List Block) → x.offset < b.offset → insert b (x ∷ bs) ≡ x ∷ insert b bs
unfolding insert
insert-cons x b bs h = ground arith

inserted-cons :
    (x b : Block) (bs : List Block) → x.offset < b.offset → inserted b (x ∷ bs) ≡ inserted b bs
unfolding inserted
inserted-cons x b bs h = ground arith

erase-cons :
    (x b : Block) (bs : List Block) → x.offset < b.offset → erase b (x ∷ bs) ≡ x ∷ erase b bs
unfolding erase
erase-cons x b bs h = ground arith

offset-inserted : (b : Block) (bs : List Block) → (inserted b bs).offset ≡ b.offset
unfolding inserted
offset-inserted b [] = refl
offset-inserted b (x ∷ xs) = ground (arith, offset-inserted b xs)

abbrev After : Block → Option Block → Type 0
After x none = Unit {0}
After x (some next) = x.offset < next.offset

close-cons :
    (x prev : Block) (next : Option Block) (bs : List Block)
    → x.offset < prev.offset
    → After x next
    → close prev next (x ∷ bs) ≡ x ∷ close prev next bs
unfolding close
close-cons x prev none bs hp hn = refl
close-cons x prev (some next) bs hp hn =
    let joined = block prev.offset (add64 prev.size next.size) in
    rw
      (
        erase-cons x prev bs hp,
        insert-cons x joined (erase prev bs) hp,
        erase-cons x next (insert joined (erase prev bs)) hn,
      )
      (ground arith)

insert_and_close-cons :
    (x b : Block) (next : Option Block) (bs : List Block)
    → x.offset < b.offset
    → After x next
    → insert_and_close b next (x ∷ bs) ≡ x ∷ insert_and_close b next bs
insert_and_close-cons x b next bs hb hn =
    rw (inserted-cons x b bs hb, insert-cons x b bs hb)
      (close-cons x (inserted b bs) next (insert b bs) (omega (arith, offset-inserted b bs)) hn)

-- Work behind the first block leaves that block alone.
place_after-cons :
    (x b prev : Block) (next : Option Block) (bs : List Block)
    → x.offset < b.offset
    → x.offset < prev.offset
    → After x next
    → place_after b prev next (x ∷ bs) ≡ x ∷ place_after b prev next bs
unfolding place_after
place_after-cons x b prev next bs hb hp hn =
    let joined = block prev.offset (add64 prev.size b.size) in
    ground (
      arith,
      erase-cons x prev bs hp,
      insert_and_close-cons x joined next (erase prev bs) hp hn,
      insert_and_close-cons x b next bs hb hn,
    )

-- The set `bs'` holds the blocks of `bs` and `b`, in order.
pub record Placed (lo top : ℕ) (b : Block) (bs bs' : List Block) : Type 0 where
  pub chain : Chain lo top bs'
  pub covers : (i : ℕ) → covered i bs' ≡ (covered i bs || in_block i b)
  pub positive : IsPositive bs → IsPositive bs'

module _ (lo top : ℕ) (b : Block) (size : 0 < b.size) (ends : end_of b ≤ top)
    (fits : top < u64_mod) where
  place_last :
      (x : Block)
      → Chain lo top (x ∷ [])
      → end_of x ≤ b.offset
      → Placed lo top b (x ∷ []) (place_after b x none (x ∷ []))
  unfolding place_after insert inserted erase
  place_last x c h = record {
    chain = ground arith;
    covers = λ i. ground arith;
    positive = λ q. ground arith;
  }

  place_middle :
      (x y : Block) (ys : List Block)
      → Chain lo top (x ∷ y ∷ ys)
      → end_of x ≤ b.offset
      → end_of b ≤ y.offset
      → Placed lo top b (x ∷ y ∷ ys) (place_after b x (some y) (x ∷ y ∷ ys))
  unfolding place_after insert inserted erase
  place_middle x y ys c h k = record {
    chain = ground arith;
    covers = λ i. ground arith;
    positive = λ q. ground arith;
  }

  pub place_first :
      (x : Block) (xs : List Block)
      → Chain lo top (x ∷ xs)
      → lo ≤ b.offset
      → end_of b ≤ x.offset
      → Placed lo top b (x ∷ xs) (place_before b x (x ∷ xs))
  unfolding place_before insert erase
  place_first x xs c l h = record {
    chain = ground arith;
    covers = λ i. ground arith;
    positive = λ q. ground arith;
  }

or_else-prior :
    (lo top : ℕ) (b y : Block) (ys : List Block)
    → Chain lo top (y ∷ ys)
    → y.offset ≤ (or_else (prior b ys) y).offset
unfolding prior
or_else-prior lo top b y [] c = omega arith
or_else-prior lo top b y (z ∷ zs) c = ground (arith, or_else-prior (suc (end_of y)) top b z zs c.2)

upper_bound-After :
    (x b : Block) (ys : List Block) (lo top : ℕ)
    → Chain lo top ys
    → x.offset < lo
    → After x (upper_bound b ys)
unfolding upper_bound
upper_bound-After x b [] lo top c h = tt
upper_bound-After x b (y ∷ ys) lo top c h =
    ground (arith, upper_bound-After x b ys (suc (end_of y)) top c.2)

Placed-cons :
    (lo top : ℕ) (b x : Block) (bs bs' : List Block)
    → lo ≤ x.offset
    → end_of x ≤ top
    → Placed (suc (end_of x)) top b bs bs'
    → Placed lo top b (x ∷ bs) (x ∷ bs')
Placed-cons lo top b x bs bs' l e p = record {
  chain = (l, e, p.chain);
  covers = λ i. ground (arith, p.covers i);
  positive = λ h. (h.0, p.positive h.1);
}

-- The two searches, by where the first block stands.
module _ (b x : Block) (xs : List Block) where
  pub prior-behind : b.offset < x.offset → prior b (x ∷ xs) ≡ none
  unfolding prior
  prior-behind h = ground arith

  pub prior-front : x.offset ≤ b.offset → prior b (x ∷ xs) ≡ some (or_else (prior b xs) x)
  unfolding prior
  prior-front h = ground arith

  pub upper_bound-behind : b.offset < x.offset → upper_bound b (x ∷ xs) ≡ some x
  unfolding upper_bound
  upper_bound-behind h = ground arith

  pub upper_bound-front : x.offset ≤ b.offset → upper_bound b (x ∷ xs) ≡ upper_bound b xs
  unfolding upper_bound
  upper_bound-front h = ground arith

upper_bound-nil : (b : Block) → upper_bound b [] ≡ none
unfolding upper_bound
upper_bound-nil b = refl

prior-nil : (b : Block) → prior b [] ≡ none
unfolding prior
prior-nil b = refl

-- A block between its neighbours `prior b₀ bs` and `upper_bound b₀ bs` is added in its place.
pub placing :
    (lo top : ℕ) (b₀ b x : Block) (xs : List Block)
    → 0 < b.size
    → end_of b ≤ top
    → top < u64_mod
    → Chain lo top (x ∷ xs)
    → b₀.offset ≤ b.offset
    → x.offset ≤ b₀.offset
    → end_of (or_else (prior b₀ xs) x) ≤ b.offset
    → EndsBefore b (upper_bound b₀ xs)
    → Placed lo top b
        (x ∷ xs)
        (place_after b (or_else (prior b₀ xs) x) (upper_bound b₀ xs) (x ∷ xs))
placing lo top b₀ b x [] s e f c hb hx hp hn =
    rw (prior-nil b₀, upper_bound-nil b₀) (place_last lo top b s e f x c (rw (prior-nil b₀) at hp))
placing lo top b₀ b x (y ∷ ys) s e f c hb hx hp hn = elim (Bool-cases (precedes b₀ y)) [
  | inl t ↦
      let p = prior-behind b₀ y ys (ltb→lt _ _ t) in
      let n = upper_bound-behind b₀ y ys (ltb→lt _ _ t) in
      rw (p, n) (place_middle lo top b s e f x y ys c (rw p at hp) (rw n at hn))
  | inr t ↦
      let hy = ltb→ge _ _ t in
      let p = prior-front b₀ y ys hy in
      let n = upper_bound-front b₀ y ys hy in
      let q = or_else-prior (suc (end_of x)) top b₀ y ys c.2 in
      rw (p, n)
        (rw
          (place_after-cons x b (or_else (prior b₀ ys) y) (upper_bound b₀ ys) (y ∷ ys) (omega arith)
            (omega (arith, q)) (upper_bound-After x b₀ ys (suc (end_of y)) top c.2.2 (omega arith)))
          (Placed-cons lo top b x (y ∷ ys) _ c.0 c.1
            (placing (suc (end_of x)) top b₀ b y ys s e f c.2 hb hy (rw p at hp) (rw n at hn))))
]
