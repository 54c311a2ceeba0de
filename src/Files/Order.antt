-- ===== src/Files/Order.antt =====
-- Files in the order of their pieces, and what that order gives for the file at an index.
use torrent_client.Base.{
  ℕ, zero, suc, ◌≤◌, ◌<◌, ◌≡◌, refl, ap, inl, inr, Bool-cases, ltb, ltb→lt, ltb→ge, List, [], ◌∷◌,
  some, arith, get_elem?, length,
}
use torrent_client.Platform.{Platform}
use torrent_client.Files.{File, first_index, last_index}

module _ (P : Platform) where
  -- No file begins before the last piece of the file in front of it.
  abbrev pub InOrder : ℕ → List (File P) → Type 0
  InOrder low [] = Unit {0}
  InOrder low (f ∷ fs) =
      (low ≤ first_index P f) × (first_index P f ≤ last_index P f) × InOrder (last_index P f) fs

  -- The file has bytes of the piece.
  abbrev pub Has : ℕ → File P → Type 0
  Has id f = (first_index P f ≤ id) × (id ≤ last_index P f)

  pub get_elem?-bounds :
      (fs : List (File P)) (low i : ℕ) (f : File P)
      → InOrder low fs
      → get_elem? fs i ≡ some f
      → (low ≤ first_index P f) × (first_index P f ≤ last_index P f) × (i < length fs)
  get_elem?-bounds [] low i f o e = cc
  get_elem?-bounds (g ∷ fs) low zero f o e = ground arith
  get_elem?-bounds (g ∷ fs) low (suc i) f o e =
      omega (arith, get_elem?-bounds fs (last_index P g) i f o.2 e)

  -- An earlier file ends where a later one begins, or before.
  pub get_elem?-ordered :
      (fs : List (File P)) (low i j : ℕ) (f g : File P)
      → InOrder low fs
      → i < j
      → get_elem? fs i ≡ some f
      → get_elem? fs j ≡ some g
      → last_index P f ≤ first_index P g
  get_elem?-ordered [] low i j f g o l e d = cc
  get_elem?-ordered (h ∷ fs) low i zero f g o l e d = absurd (omega arith)
  get_elem?-ordered (h ∷ fs) low zero (suc j) f g o l e d =
      ground (arith, get_elem?-bounds fs (last_index P h) j g o.2 d)
  get_elem?-ordered (h ∷ fs) low (suc i) (suc j) f g o l e d =
      get_elem?-ordered fs (last_index P h) i j f g o.2 (omega arith) e d

  pub get_elem?-some :
      (fs : List (File P)) (i : ℕ) → i < length fs → (f : File P) × (get_elem? fs i ≡ some f)
  get_elem?-some [] i l = absurd (omega arith)
  get_elem?-some (g ∷ fs) zero l = (g, refl)
  get_elem?-some (g ∷ fs) (suc i) l = get_elem?-some fs i (omega arith)

  module _ (fs : List (File P)) (i j : ℕ) (f g : File P) (o : InOrder 0 fs)
      (e : get_elem? fs i ≡ some f) (d : get_elem? fs j ≡ some g) (id : ℕ) (h : Has id g) where
    same : i ≡ j → f ≡ g
    same q = cc (ap (get_elem? fs) q)

    -- A file that ends before the piece stands before a file of the piece.
    pub lt_of_ends-before : last_index P f < id → i < j
    lt_of_ends-before l = elim (Bool-cases (ltb i j)) [
      | inl t ↦ ltb→lt _ _ t
      | inr t ↦ absurd (elim (Bool-cases (ltb j i)) [
        | inl u ↦ omega (
          arith,
          get_elem?-ordered fs 0 j i g f o (ltb→lt _ _ u) d e,
          get_elem?-bounds fs 0 i f o e,
        )
        | inr u ↦
            omega (arith, ap (last_index P) (same (omega (arith, ltb→ge _ _ t, ltb→ge _ _ u))))
      ])
    ]

    -- A file that begins behind the piece stands behind it.
    pub gt_of_begins-after : id < first_index P f → j < i
    gt_of_begins-after l = elim (Bool-cases (ltb j i)) [
      | inl t ↦ ltb→lt _ _ t
      | inr t ↦ absurd (elim (Bool-cases (ltb i j)) [
        | inl u ↦ omega (
          arith,
          get_elem?-ordered fs 0 i j f g o (ltb→lt _ _ u) e d,
          get_elem?-bounds fs 0 i f o e,
        )
        | inr u ↦
            omega (arith, ap (first_index P) (same (omega (arith, ltb→ge _ _ t, ltb→ge _ _ u))))
      ])
    ]
