-- ===== src/Piece/Storing.antt =====
-- Piece::add on a set that is not empty: every way that the cuts can end.
use torrent_client.Base.{
  ℕ, ◌≤◌, ◌<◌, ◌≡◌, refl, ◌∙◌, inl, inr, List, [], ◌∷◌, Option, none, some, true, arith, u64_mod,
  sub64, ◌==◌, Bool-cases, Outcome, ok, throws, undefined, right_in_self,
}
use torrent_client.Piece.Overlap.{Block, Modified, modified}
use torrent_client.Piece.BlockSet.{upper_bound, prior}
use torrent_client.Piece.Cutting.{end_of, in_block}
use torrent_client.Piece.Cover.{covered, Chain}
use torrent_client.Piece.Placing.{Placed}
use torrent_client.Piece.Trimming.{in_option, StartsBy, StartsAfter, Holds, trim_both-Holds}
use torrent_client.Piece.Neighbours.{
  prior-StartsBy, upper_bound-StartsAfter, covered-neighbours, UpTo,
}
use torrent_client.Piece.{Piece, Buffer, add_block, copy, settle, store, trim_both}
use torrent_client.Piece.Adding.{copy_in_bounds, place_lem, copied_byte, cut_bytes, Added}

-- A block that the one in front reaches beyond is covered by it.
swallowed :
    (b x : Block) (prev next : Option Block) (i : ℕ)
    → StartsBy b prev
    → StartsAfter b prev next
    → prev ≡ some x
    → end_of b < end_of x
    → in_block i b ≡ true
    → (in_option i prev ≡ true) × UpTo i next
swallowed b x none next i p n e h t = cc
swallowed b x (some w) none i p n e h t = (ground arith, tt)
swallowed b x (some w) (some y) i p n e h t = (ground arith, ground arith)

swallowed_bytes :
    (top : ℕ) (b x : Block) (bs : List Block)
    → top < u64_mod
    → Chain 0 top bs
    → prior b bs ≡ some x
    → end_of b < end_of x
    → (i : ℕ) → in_block i b ≡ true
    → covered i bs ≡ true
swallowed_bytes top b x bs f c e h i t =
    let (k, u) =
      swallowed b x (prior b bs) (upper_bound b bs) i (prior-StartsBy b top f 0 bs c)
        (upper_bound-StartsAfter b top f 0 bs c) e h t in
    rw (covered-neighbours b i 0 top bs c (ground arith) u, k)

abbrev pub Result : Piece → Buffer → (ℕ → ℕ) → Block → Outcome Piece → Type 0
Result p m source b (ok p') = (m' : Buffer) × Added p m source b p' m'
Result p m source b (throws e p') =
    (e ≡ right_in_self)
    × (p' ≡ p)
    × (y : Block) × (upper_bound b p.blocks ≡ some y)
    × (end_of y < end_of b)
Result p m source b undefined = ⊥

module _ (p : Piece) (m : Buffer) (source : ℕ → ℕ) (b : Block) (held : p.buffer ≡ some m)
    (fits : m.capacity < u64_mod) (inside : end_of b ≤ m.capacity) (size : 0 < b.size) where
  add_block-first : p.blocks ≡ [] → Result p m source b (add_block p m source b [])
  unfolding add_block
  add_block-first e =
      let (m', c, k, bytes) = copy_in_bounds m b.offset 0 b.size source inside in
      rw c (
        m',
        record {
          buffer = refl;
          capacity = k;
          id = refl;
          full_piece_size = refl;
          chain = ground arith;
          covers = λ i. rw e (ground arith);
          positive = λ h. (size, tt);
          bytes = λ i. rw e (ground (arith, bytes i));
        },
      )

  unchanged :
      Chain 0 m.capacity p.blocks
      → ((i : ℕ) → in_block i b ≡ true → covered i p.blocks ≡ true)
      → Added p m source b p m
  unchanged c h = record {
    buffer = held;
    capacity = refl;
    id = refl;
    full_piece_size = refl;
    chain = c;
    covers = λ i. ground (arith, h i);
    positive = λ h'. h';
    bytes = λ i. ground (arith, h i);
  }

  stored_rest :
      (b' : Block)
      → Chain 0 m.capacity p.blocks
      → Holds (prior b p.blocks) (upper_bound b p.blocks) b (modified b')
      → (bs' : List Block) → Placed 0 m.capacity b' p.blocks bs'
      → Result p m source b
          (settle p (copy m b'.offset source (sub64 b'.offset b.offset) b'.size) (some bs'))
  stored_rest b' c h bs' pl =
      let left = cut_bytes m.capacity b b' p.blocks c h in
      let (m', k, size', bytes) =
        copy_in_bounds m b'.offset (sub64 b'.offset b.offset) b'.size source (omega arith) in
      rw k (
        m',
        record {
          buffer = refl;
          capacity = size';
          id = refl;
          full_piece_size = refl;
          chain = pl.chain;
          covers = λ i. ground (arith, pl.covers i, left i);
          positive = pl.positive;
          bytes = λ i.
              bytes i ∙ copied_byte m source b b' (covered i p.blocks) i h.0 (omega arith) (left i);
        },
      )

  stored :
      (x : Block) (xs : List Block)
      → p.blocks ≡ x ∷ xs
      → Chain 0 m.capacity p.blocks
      → (r : Modified) → Holds (prior b p.blocks) (upper_bound b p.blocks) b r
      → Result p m source b (store p m source b r)
  unfolding store
  stored x xs e c (modified b') h = elim (Bool-cases (b'.size == 0)) [
    | inl t ↦
        rw t (m, unchanged c (λ i u. ground (arith, cut_bytes m.capacity b b' p.blocks c h i)))
    | inr t ↦
        let (bs', k, pl) =
          place_lem m.capacity b b' p.blocks x xs e (ground arith) h.0 (omega arith) fits c h.2
            h.3 in
        rw (t, k) (stored_rest b' c h bs' pl)
  ]
  stored x xs e c Modified.self_in_right (w, k, l, _) =
      (m, unchanged c (swallowed_bytes m.capacity b w p.blocks fits c k l))
  stored x xs e c Modified.right_in_self (y, n, l) = (refl, refl, y, n, l)

  pub add_block-Result :
      (bs : List Block)
      → p.blocks ≡ bs
      → Chain 0 m.capacity p.blocks
      → Result p m source b (add_block p m source b bs)
  unfolding add_block
  add_block-Result [] e c = add_block-first e
  add_block-Result (x ∷ xs) e c = rw (← e) (
      stored x xs e c (trim_both (prior b p.blocks) (upper_bound b p.blocks) b) (
        trim_both-Holds b (omega arith) size (prior b p.blocks) (upper_bound b p.blocks)
          (prior-StartsBy b m.capacity fits 0 p.blocks c)
          (upper_bound-StartsAfter b m.capacity fits 0 p.blocks c)))
