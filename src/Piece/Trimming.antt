-- ===== src/Piece/Trimming.antt =====
-- The two cuts of Piece::add on an ordered set.
use torrent_client.Base.{
  ℕ, ◌+◌, ◌-◌, ◌≤◌, ◌<◌, ◌≡◌, refl, ◌⊎◌, inl, inr, Option, none, some, Bool, false, ◌||◌, ◌&&◌, not,
  arith, Bool-cases, ltb, leb, leb→le,
}
use torrent_client.Piece.Overlap.{
  Block, block, Modified, modify_on_intersection, modified, self_in_right, right_in_self,
}
use torrent_client.Piece.Cutting.{
  end_of, in_block, Fits, EndsBefore, modify_on_intersection-cut_front,
  modify_on_intersection-cut_back,
}
use torrent_client.Piece.{trim, trim_both}

abbrev pub in_option : ℕ → Option Block → Bool
in_option i none = false
in_option i (some x) = in_block i x

abbrev pub StartsBy : Block → Option Block → Type 0
StartsBy b none = Unit {0}
StartsBy b (some x) = (x.offset ≤ b.offset) × Fits x

abbrev pub StartsAfter : Block → Option Block → Option Block → Type 0
StartsAfter b prev none = Unit {0}
StartsAfter b none (some y) = (b.offset < y.offset) × Fits y
StartsAfter b (some x) (some y) = (b.offset < y.offset) × Fits y × (end_of x < y.offset)

abbrev pub EndsBy : Option Block → Block → Type 0
EndsBy none b = Unit {0}
EndsBy (some x) b = end_of x ≤ b.offset

abbrev pub Reaches : Block → Option Block → Type 0
Reaches b none = Unit {0}
Reaches b (some next) = end_of b ≤ end_of next

abbrev pub Holds : Option Block → Option Block → Block → Modified → Type 0
Holds prev next b (modified b') =
    (b.offset ≤ b'.offset)
    × (b'.offset + b'.size ≤ end_of b)
    × EndsBy prev b'
    × EndsBefore b' next
    × Reaches b next
    × ((i : ℕ) → in_block i b' ≡ (in_block i b && not (in_option i prev || in_option i next)))
Holds prev next b self_in_right =
    (x : Block) × (prev ≡ some x) × (end_of b < end_of x) × (b.offset < end_of x)
Holds prev next b right_in_self = (y : Block) × (next ≡ some y) × (end_of y < end_of b)

trim_both-none-none : (b : Block) → trim_both none none b ≡ modified b
unfolding trim_both
trim_both-none-none b = refl

trim_both-modified :
    (x b c : Block) (next : Option Block)
    → modify_on_intersection b x ≡ modified c
    → trim_both (some x) next b ≡ trim next c
unfolding trim_both
trim_both-modified x b c next e = ground arith

trim_both-self_in_right :
    (x b : Block) (next : Option Block)
    → modify_on_intersection b x ≡ self_in_right
    → trim_both (some x) next b ≡ self_in_right
unfolding trim_both
trim_both-self_in_right x b next e = ground arith

module _ (b : Block) (fits : Fits b) (size : 0 < b.size) where
  trim-Holds :
      (x c : Block) (next : Option Block)
      → b.offset ≤ c.offset
      → end_of c ≡ end_of b
      → end_of x ≤ c.offset
      → (c.offset ≤ b.offset) ⊎ (c.offset ≤ end_of x)
      → ((i : ℕ) → in_block i c ≡ (in_block i b && not (in_block i x)))
      → StartsAfter b (some x) next
      → Holds (some x) next b (trim next c)
  trim-Holds x c none h k l m bytes n = (h, omega arith, l, tt, tt, λ i. ground (arith, bytes i))
  trim-Holds x c (some y) h k l m bytes n =
      rw (modify_on_intersection-cut_back c y (omega arith) n.1 (omega arith))
        (elim (Bool-cases (leb (end_of c) y.offset)) [
          | inl t ↦
              rw t (h, omega arith, l, leb→le _ _ t, ground arith, λ i. ground (arith, bytes i))
          | inr t ↦ rw t (elim (Bool-cases (ltb (end_of y) (end_of c))) [
            | inl u ↦ rw u (y, refl, ground arith)
            | inr u ↦
                rw u (h, ground arith, l, ground arith, ground arith, λ i. ground (arith, bytes i))
          ])
        ])

  pub trim_both-Holds :
      (prev next : Option Block)
      → StartsBy b prev
      → StartsAfter b prev next
      → Holds prev next b (trim_both prev next b)
  unfolding trim_both
  trim_both-Holds none none p n = (omega arith, omega arith, tt, tt, tt, λ i. ground arith)
  trim_both-Holds none (some y) p n =
      rw (modify_on_intersection-cut_back b y fits n.1 n.0) (ground arith)
  trim_both-Holds (some x) next p n =
      let cut = modify_on_intersection-cut_front b x fits p.1 p.0 in
      elim (Bool-cases (leb (end_of x) b.offset || leb (end_of b) x.offset)) [
        | inl t ↦ rw (trim_both-modified x b b next (rw t at cut)) (
            trim-Holds x b next (omega arith) (omega arith) (ground arith) (inl (omega arith))
              (λ i. ground arith) n)
        | inr t ↦ elim (Bool-cases (ltb (end_of b) (end_of x))) [
          | inl u ↦
              rw (trim_both-self_in_right x b next (rw (t, u) at cut))
                (x, refl, ground arith, ground arith)
          | inr u ↦
              let c = block (end_of x) (end_of b - end_of x) in
              rw (trim_both-modified x b c next (rw (t, u) at cut)) (
                trim-Holds x c next (ground arith) (ground arith) (omega arith) (inr (omega arith))
                  (λ i. ground arith) n)
        ]
      ]
