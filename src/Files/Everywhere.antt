-- ===== src/Files/Everywhere.antt =====
-- Files::write_piece next to a loop over all files.
use torrent_client.Base.{
  ℕ, zero, suc, ◌+◌, ◌≤◌, ◌<◌, ◌≡◌, refl, ap, ◌∙◌, ◌⊎◌, inl, inr, List, [], ◌∷◌, some, arith,
  get_elem?, length, ==_iff, Bool-cases, ◌==◌, Outcome, ok,
}
use torrent_client.Platform.{Platform}
use torrent_client.Files.{
  File, first_index, last_index, and_rest, write_file, write_while, write_from, write_piece,
  write_found,
}
use torrent_client.Files.Order.{InOrder, Has, get_elem?-bounds}
use torrent_client.Files.Search.{HeadIs, StartsAt, searched}

module _ (P : Platform) (id : ℕ) (source : ℕ → ℕ) (size : ℕ) where
  -- File::write_piece on every file in turn, until one throws.
  abbrev pub write_all : List (File P) → Outcome (List (File P))
  write_all [] = ok []
  write_all (f ∷ fs) = and_rest (write_file P id source size f) fs (write_all fs)

  write_file_before : (f : File P) → last_index P f < id → write_file P id source size f ≡ ok f
  unfolding write_file
  write_file_before f l = ground arith

  write_file_behind : (f : File P) → id < first_index P f → write_file P id source size f ≡ ok f
  unfolding write_file
  write_file_behind f l = ground arith

  write_all_behind :
      (low : ℕ) (fs : List (File P)) → InOrder P low fs → id < low → write_all fs ≡ ok fs
  write_all_behind low [] o l = refl
  write_all_behind low (f ∷ fs) o l =
      rw (write_file_behind f (omega arith), write_all_behind (last_index P f) fs o.2 (omega arith))

  write_while-all :
      (low : ℕ) (fs : List (File P))
      → InOrder P low fs
      → id ≤ low
      → write_while P id source size fs ≡ write_all fs
  unfolding write_while
  write_while-all low [] o l = refl
  write_while-all low (f ∷ fs) o l = elim (Bool-cases (first_index P f == id)) [
    | inl t ↦ rw t (
        ap (and_rest (write_file P id source size f) fs)
          (write_while-all (last_index P f) fs o.2 (omega arith)))
    | inr t ↦
        let behind : id < first_index P f = ground arith in
        rw (t, write_file_behind f behind, write_all_behind (last_index P f) fs o.2 (omega arith))
  ]

  -- The first file of the rest begins with the piece, or the file in front reaches it.
  write_while_next :
      (low : ℕ) (fs : List (File P))
      → InOrder P low fs
      → (id ≤ low) ⊎ HeadIs P id fs
      → write_while P id source size fs ≡ write_all fs
  unfolding write_while
  write_while_next low fs o (inl l) = write_while-all low fs o l
  write_while_next low [] o (inr h) = refl
  write_while_next low (f ∷ fs) o (inr h) = rw ((==_iff _ _).1 h) (
      ap (and_rest (write_file P id source size f) fs)
        (write_while-all (last_index P f) fs o.2 (omega arith)))

  write_from-all :
      (low n : ℕ) (fs : List (File P))
      → InOrder P low fs
      → StartsAt P id n fs
      → write_from P n id source size fs ≡ write_all fs
  unfolding write_from
  write_from-all low n [] o s = absurd s
  write_from-all low zero (f ∷ fs) o s =
      ap (and_rest (write_file P id source size f) fs) (write_while_next (last_index P f) fs o.2 s)
  write_from-all low (suc n) (f ∷ fs) o s =
      rw (write_file_before f s.0, write_from-all (last_index P f) n fs o.2 s.1)

  -- For files in order and a piece that some file has bytes of, the search ends and the piece is
  -- written to every file that has bytes of it, in order, exactly as if each file were tried.
  pub write_piece-all :
      (fs : List (File P)) (k : ℕ) (g : File P)
      → InOrder P 0 fs
      → get_elem? fs k ≡ some g
      → Has P id g
      → write_piece P id source size fs ≡ write_all fs
  unfolding write_piece
  write_piece-all fs k g o e h =
      let (n, found_at, starts) =
        searched P (length fs + 1) 0 (length fs) id k fs g o e h (omega arith)
          (get_elem?-bounds P fs 0 k g o e).2 (omega arith) (omega arith) in
      ap (λ r. write_found P r id source size fs) found_at ∙ write_from-all 0 n fs o starts
