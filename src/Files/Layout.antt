-- ===== src/Files/Layout.antt =====
-- File::write_piece with files whose places in the pieces fit together: no write takes bytes from
-- behind the piece.
use torrent_client.Base.{
  ℕ, zero, suc, ◌+◌, ◌≤◌, ◌<◌, ◌≡◌, refl, sym, ap, ◌∙◌, ◌⊎◌, inl, inr, List, [], ◌∷◌, some, arith,
  get_elem?, Bool-cases, ltb, ge→ltb, ◌||◌, ◌==◌, ==_iff, u64_mod, Outcome, ok, throws, undefined,
}
use torrent_client.Platform.{Platform}
use torrent_client.TorrentFile.{FileInfo}
use torrent_client.Files.{
  File, first_index, last_index, prepend, and_rest, part_offset, part_size, written, write_file,
  write_while, write_from, write_piece, write_found, Searched, found, out_of_bounds, out_of_fuel,
}
use torrent_client.Files.Order.{InOrder, Has}
use torrent_client.Files.Everywhere.{write_all, write_piece-all}

module _ (size : ℕ → ℕ) where
  -- The part of its first piece and of its last one that a file has lies inside the piece.
  abbrev pub IsLaid : FileInfo → Type 0
  IsLaid f =
      (f.first_piece.offset ≤ size f.first_piece.index)
      × (f.last_piece.offset ≤ size f.last_piece.index)
      × (f.first_piece.index ≡ f.last_piece.index → f.first_piece.offset ≤ f.last_piece.offset)

  -- So for all files, each of which begins where the one before it ends, or later.
  abbrev pub AreLaid : ℕ → List FileInfo → Type 0
  AreLaid low [] = Unit {0}
  AreLaid low (f ∷ fs) =
      (low ≤ f.first_piece.index)
      × (f.first_piece.index ≤ f.last_piece.index)
      × IsLaid f
      × AreLaid f.last_piece.index fs

-- Some file has bytes of the piece.
abbrev pub HasPiece : ℕ → List FileInfo → Type 0
HasPiece id [] = ⊥
HasPiece id (f ∷ fs) = ((f.first_piece.index ≤ id) × (id ≤ f.last_piece.index)) ⊎ HasPiece id fs

module _ (P : Platform) where
  abbrev pub infos : List (File P) → List FileInfo
  infos [] = []
  infos (f ∷ fs) = f.info ∷ infos fs

  -- What a write leaves of the files: each has the place that it had.
  abbrev pub KeepsInfos : List FileInfo → Outcome (List (File P)) → Type 0
  KeepsInfos is (ok gs) = infos gs ≡ is
  KeepsInfos is (throws e gs) = infos gs ≡ is
  KeepsInfos is undefined = Unit {0}

  abbrev KeepsInfo : FileInfo → Outcome (File P) → Type 0
  KeepsInfo i (ok f) = f.info ≡ i
  KeepsInfo i (throws e f) = f.info ≡ i
  KeepsInfo i undefined = Unit {0}

  prepend-KeepsInfos :
      (f : File P) (i : FileInfo) (is : List FileInfo) (o : Outcome (List (File P)))
      → f.info ≡ i
      → KeepsInfos is o
      → KeepsInfos (i ∷ is) (prepend f o)
  prepend-KeepsInfos f i is (ok gs) h k = cc
  prepend-KeepsInfos f i is (throws e gs) h k = cc
  prepend-KeepsInfos f i is undefined h k = tt

  and_rest-KeepsInfos :
      (i : FileInfo) (fs : List (File P)) (o : Outcome (File P)) (r : Outcome (List (File P)))
      → KeepsInfo i o
      → KeepsInfos (infos fs) r
      → KeepsInfos (i ∷ infos fs) (and_rest o fs r)
  and_rest-KeepsInfos i fs (ok f) r h k = prepend-KeepsInfos f i (infos fs) r h k
  and_rest-KeepsInfos i fs (throws e f) r h k = cc
  and_rest-KeepsInfos i fs undefined r h k = tt

  written-KeepsInfo :
      (f : File P) (id size : ℕ) (r : ℕ × P.Fd) → KeepsInfo f.info (written P f id size r)
  written-KeepsInfo f id size (n, fd) = elim (Bool-cases (n == size)) [
    | inl t ↦ rw t refl
    | inr t ↦ rw t refl
  ]

  module _ (id : ℕ) (source : ℕ → ℕ) (size : ℕ) where
    write_file-KeepsInfo : (f : File P) → KeepsInfo f.info (write_file P id source size f)
    unfolding write_file
    write_file-KeepsInfo f =
        elim (Bool-cases (ltb id (first_index P f) || ltb (last_index P f) id)) [
          | inl t ↦ rw t refl
          | inr t ↦
              rw t (elim (Bool-cases (ltb size (part_offset P f id + part_size P f id size))) [
                | inl u ↦ rw u tt
                | inr u ↦ rw u (written-KeepsInfo f id _ _)
              ])
        ]

    write_while-KeepsInfos :
        (fs : List (File P)) → KeepsInfos (infos fs) (write_while P id source size fs)
    unfolding write_while
    write_while-KeepsInfos [] = refl
    write_while-KeepsInfos (f ∷ fs) = elim (Bool-cases (first_index P f == id)) [
      | inl t ↦
          rw t
            (and_rest-KeepsInfos f.info fs _ _ (write_file-KeepsInfo f) (write_while-KeepsInfos fs))
      | inr t ↦ rw t refl
    ]

    write_from-KeepsInfos :
        (n : ℕ) (fs : List (File P)) → KeepsInfos (infos fs) (write_from P n id source size fs)
    unfolding write_from
    write_from-KeepsInfos zero [] = tt
    write_from-KeepsInfos (suc n) [] = tt
    write_from-KeepsInfos zero (f ∷ fs) =
        and_rest-KeepsInfos f.info fs _ _ (write_file-KeepsInfo f) (write_while-KeepsInfos fs)
    write_from-KeepsInfos (suc n) (f ∷ fs) =
        prepend-KeepsInfos f f.info (infos fs) _ refl (write_from-KeepsInfos n fs)

    write_found-KeepsInfos :
        (r : Searched) (fs : List (File P))
        → KeepsInfos (infos fs) (write_found P r id source size fs)
    write_found-KeepsInfos (found n) fs = write_from-KeepsInfos n fs
    write_found-KeepsInfos out_of_bounds fs = tt
    write_found-KeepsInfos out_of_fuel fs = tt

    pub write_piece-KeepsInfos :
        (fs : List (File P)) → KeepsInfos (infos fs) (write_piece P id source size fs)
    unfolding write_piece
    write_piece-KeepsInfos fs = write_found-KeepsInfos _ fs

  module _ (size : ℕ → ℕ) where
    AreLaid-InOrder :
        (low : ℕ) (fs : List (File P)) → AreLaid size low (infos fs) → InOrder P low fs
    AreLaid-InOrder low [] h = tt
    AreLaid-InOrder low (f ∷ fs) h = (h.0, h.1, AreLaid-InOrder (last_index P f) fs h.3)

    HasPiece-Has :
        (id : ℕ) (fs : List (File P))
        → HasPiece id (infos fs)
        → (k : ℕ) × ((g : File P) × ((get_elem? fs k ≡ some g) × Has P id g))
    HasPiece-Has id [] h = absurd h
    HasPiece-Has id (f ∷ fs) (inl h) = (0, (f, (refl, h)))
    HasPiece-Has id (f ∷ fs) (inr h) = let (k, r) = HasPiece-Has id fs h in (suc k, r)

    abbrev pub IsDefined {ℓ} : {A : Type ℓ} → Outcome A → Type 0
    IsDefined (ok a) = Unit {0}
    IsDefined (throws e a) = Unit {0}
    IsDefined undefined = ⊥

    and_rest-IsDefined :
        (fs : List (File P)) (o : Outcome (File P)) (r : Outcome (List (File P)))
        → IsDefined o
        → IsDefined r
        → IsDefined (and_rest o fs r)
    and_rest-IsDefined fs (ok f) (ok gs) h k = tt
    and_rest-IsDefined fs (ok f) (throws e gs) h k = tt
    and_rest-IsDefined fs (ok f) undefined h k = k
    and_rest-IsDefined fs (throws e f) r h k = tt
    and_rest-IsDefined fs undefined r h k = h

    written-IsDefined : (f : File P) (id n : ℕ) (r : ℕ × P.Fd) → IsDefined (written P f id n r)
    written-IsDefined f id n (m, fd) = elim (Bool-cases (m == n)) [
      | inl t ↦ rw t tt
      | inr t ↦ rw t tt
    ]

    part_within :
        (f : File P) (id : ℕ)
        → IsLaid size f.info
        → size id < u64_mod
        → part_offset P f id + part_size P f id (size id) ≤ size id
    unfolding part_offset part_size
    part_within f id h b = elim (Bool-cases (id == first_index P f)) [
      | inl t ↦ elim (Bool-cases (id == last_index P f)) [
        | inl u ↦
            let e = (==_iff id (first_index P f)).0 t in
            let e' = (==_iff id (last_index P f)).0 u in
            rw (t, u) (omega (arith, h.0, h.1, h.2 (sym e ∙ e'), ap size e, ap size e'))
        | inr u ↦ rw (t, u) (omega (arith, h.0, ap size ((==_iff id (first_index P f)).0 t)))
      ]
      | inr t ↦ elim (Bool-cases (id == last_index P f)) [
        | inl u ↦ rw (t, u) (omega (arith, h.1, ap size ((==_iff id (last_index P f)).0 u)))
        | inr u ↦ rw (t, u) (omega arith)
      ]
    ]

    write_file-IsDefined :
        (f : File P) (id : ℕ) (source : ℕ → ℕ)
        → IsLaid size f.info
        → size id < u64_mod
        → IsDefined (write_file P id source (size id) f)
    unfolding write_file
    write_file-IsDefined f id source h b =
        elim (Bool-cases (ltb id (first_index P f) || ltb (last_index P f) id)) [
          | inl t ↦ rw t tt
          | inr t ↦
              let within = part_within f id h b in
              rw (t, ge→ltb _ _ within) (written-IsDefined f id _ _)
        ]

    write_all-IsDefined :
        (low id : ℕ) (source : ℕ → ℕ) (fs : List (File P))
        → AreLaid size low (infos fs)
        → size id < u64_mod
        → IsDefined (write_all P id source (size id) fs)
    write_all-IsDefined low id source [] h b = tt
    write_all-IsDefined low id source (f ∷ fs) h b =
        and_rest-IsDefined fs _ _ (write_file-IsDefined f id source h.2 b)
          (write_all-IsDefined (last_index P f) id source fs h.3 b)

    pub write_piece-IsDefined :
        (id : ℕ) (source : ℕ → ℕ) (fs : List (File P))
        → AreLaid size 0 (infos fs)
        → HasPiece id (infos fs)
        → size id < u64_mod
        → IsDefined (write_piece P id source (size id) fs)
    write_piece-IsDefined id source fs h c b =
        let (k, (g, (e, has))) = HasPiece-Has id fs c in
        rw (write_piece-all P id source (size id) fs k g (AreLaid-InOrder 0 fs h) e has)
          (write_all-IsDefined 0 id source fs h b)
