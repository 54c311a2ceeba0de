-- ===== src/Files/Search.antt =====
-- search of files.cpp: where it ends, and when.
use torrent_client.Base.{
  ℕ, zero, suc, ◌+◌, ◌-◌, ◌/◌, ◌≤◌, ◌<◌, ◌≡◌, refl, ◌∙◌, ◌⊎◌, inl, inr, List, [], ◌∷◌, some, arith,
  get_elem?, length, ltb, ltb→lt, ltb→ge, lt→ltb, ge→ltb, Bool-cases, ==_iff, ◌==◌,
}
use torrent_client.Platform.{Platform}
use torrent_client.Files.{File, first_index, last_index, back, search_file, found, out_of_fuel}
use torrent_client.Files.Order.{
  InOrder, Has, get_elem?-bounds, get_elem?-ordered, get_elem?-some, lt_of_ends-before,
  gt_of_begins-after,
}

module _ (P : Platform) where
  abbrev pub HeadIs : ℕ → List (File P) → Type 0
  HeadIs id [] = ⊥
  HeadIs id (f ∷ fs) = first_index P f ≡ id

  -- From index n on the files may have bytes of the piece, and the files before it have none.
  abbrev pub StartsAt : ℕ → ℕ → List (File P) → Type 0
  StartsAt id n [] = ⊥
  StartsAt id zero (f ∷ fs) = (id ≤ last_index P f) ⊎ HeadIs id fs
  StartsAt id (suc n) (f ∷ fs) = (last_index P f < id) × StartsAt id n fs

  -- What the file at an index is to the piece, for the walk back.
  abbrev Near : ℕ → List (File P) → ℕ → File P → Type 0
  Near id fs m f =
      (id ≤ last_index P f)
      ⊎ ((g : File P) × (get_elem? fs (suc m) ≡ some g) × (first_index P g ≡ id))

  head_is :
      (id : ℕ) (fs : List (File P)) (g : File P)
      → get_elem? fs 0 ≡ some g
      → first_index P g ≡ id
      → HeadIs id fs
  head_is id [] g e h = cc
  head_is id (f ∷ fs) g e h = ground arith

  starts_at :
      (id m : ℕ) (fs : List (File P)) (low : ℕ) (f : File P)
      → InOrder P low fs
      → get_elem? fs m ≡ some f
      → Near id fs m f
      → (m ≡ 0) ⊎ (first_index P f < id)
      → StartsAt id m fs
  starts_at id m [] low f o e n h = cc
  starts_at id zero (g ∷ fs) low f o e (inl n) h = inl (ground arith)
  starts_at id zero (g ∷ fs) low f o e (inr (k, d, q)) h = inr (head_is id fs k d q)
  starts_at id (suc m) (g ∷ fs) low f o e n (inl h) = absurd (omega arith)
  starts_at id (suc m) (g ∷ fs) low f o e n (inr h) = (
    omega (arith, get_elem?-bounds P fs (last_index P g) m f o.2 e),
    starts_at id m fs (last_index P g) f o.2 e n (inr h),
  )

  back-StartsAt :
      (id m : ℕ) (fs : List (File P)) (f : File P)
      → InOrder P 0 fs
      → get_elem? fs m ≡ some f
      → Near id fs m f
      → first_index P f ≤ id
      → StartsAt id (back P fs m id) fs
  unfolding back
  back-StartsAt id zero fs f o e n h = starts_at id 0 fs 0 f o e n (inl refl)
  back-StartsAt id (suc m) fs f o e n h = elim (Bool-cases (first_index P f == id)) [
    | inl t ↦
        let (g, d) = get_elem?-some P fs m (omega (arith, get_elem?-bounds P fs 0 (suc m) f o e)) in
        let le = get_elem?-ordered P fs 0 m (suc m) g f o (omega arith) d e in
        let b = get_elem?-bounds P fs 0 m g o d in
        rw (e, t, back) (back-StartsAt id m fs g o d (inr (f, e, (==_iff _ _).0 t)) (omega arith))
    | inr t ↦ rw (e, t, back) (starts_at id (suc m) fs 0 f o e n (inr (ground arith)))
  ]

  module _ (fuel begin end id : ℕ) (fs : List (File P)) (f : File P) where
    abbrev middle : ℕ
    middle = (end + begin) / 2

    search_right :
        get_elem? fs middle ≡ some f
        → last_index P f < id
        → search_file P (suc fuel) fs begin end id ≡ search_file P fuel fs middle end id
    unfolding search_file
    search_right e l = rw (e, lt→ltb _ _ l, search_file)

    search_left :
        get_elem? fs middle ≡ some f
        → id ≤ last_index P f
        → id < first_index P f
        → search_file P (suc fuel) fs begin end id ≡ search_file P fuel fs begin middle id
    unfolding search_file
    search_left e l m = rw (e, ge→ltb _ _ l, lt→ltb _ _ m, search_file)

    search_here :
        get_elem? fs middle ≡ some f
        → Has P id f
        → search_file P (suc fuel) fs begin end id ≡ found (back P fs middle id)
    unfolding search_file
    search_here e h = rw (e, ge→ltb _ _ h.1, ge→ltb _ _ h.0, search_file)

  -- For files in order and a part of the array that holds a file with bytes of the piece, the search
  -- ends at a file from which the loop of Files::write_piece reaches every file with bytes of the
  -- piece, and the files before it have none.
  pub searched :
      (fuel begin end id k : ℕ) (fs : List (File P)) (g : File P)
      → InOrder P 0 fs
      → get_elem? fs k ≡ some g
      → Has P id g
      → begin ≤ k
      → k < end
      → end ≤ length fs
      → end - begin < fuel
      → (n : ℕ) × (search_file P fuel fs begin end id ≡ found n) × StartsAt id n fs
  searched zero begin end id k fs g o d h l m t u = absurd (omega arith)
  searched (suc fuel) begin end id k fs g o d h l m t u =
      let middle = (end + begin) / 2 in
      let (f, e) = get_elem?-some P fs middle (omega arith) in
      elim (Bool-cases (ltb (last_index P f) id)) [
        | inl a ↦
            let lt = ltb→lt _ _ a in
            let after = lt_of_ends-before P fs middle k f g o e d id h lt in
            rw (search_right fuel begin end id fs f e lt) (
              searched fuel middle end id k fs g o d h (omega (arith, after)) m t
                (omega (arith, after)))
        | inr a ↦ elim (Bool-cases (ltb id (first_index P f))) [
          | inl b ↦
              let lt = ltb→lt _ _ b in
              let before = gt_of_begins-after P fs middle k f g o e d id h lt in
              rw (search_left fuel begin end id fs f e (ltb→ge _ _ a) lt) (
                searched fuel begin middle id k fs g o d h l before (omega arith)
                  (omega (arith, before)))
          | inr b ↦
              let has : Has P id f = (ltb→ge _ _ b, ltb→ge _ _ a) in
              rw (search_here fuel begin end id fs f e has)
                (back P fs middle id, refl, back-StartsAt id middle fs f o e (inl has.1) has.0)
        ]
      ]

  abbrev pub AllEndBefore : ℕ → List (File P) → Type 0
  AllEndBefore id [] = Unit {0}
  AllEndBefore id (f ∷ fs) = (last_index P f < id) × AllEndBefore id fs

  ends_before :
      (id i : ℕ) (fs : List (File P)) (f : File P)
      → AllEndBefore id fs
      → get_elem? fs i ≡ some f
      → last_index P f < id
  ends_before id i [] f a e = cc
  ends_before id zero (g ∷ fs) f a e = ground arith
  ends_before id (suc i) (g ∷ fs) f a e = ends_before id i fs f a.1 e

  -- For a piece behind the last file and a part of the array that is not empty, the recursion has no
  -- end: no amount of fuel is enough.
  pub search_behind :
      (fuel begin end id : ℕ) (fs : List (File P))
      → AllEndBefore id fs
      → begin < end
      → end ≤ length fs
      → search_file P fuel fs begin end id ≡ out_of_fuel
  unfolding search_file
  search_behind zero begin end id fs a l m = refl
  search_behind (suc fuel) begin end id fs a l m =
      let (f, e) = get_elem?-some P fs ((end + begin) / 2) (omega arith) in
      search_right fuel begin end id fs f e (ends_before id _ fs f a e)
      ∙ search_behind fuel ((end + begin) / 2) end id fs a (omega arith) m
