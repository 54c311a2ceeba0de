-- ===== src/Files.antt =====
-- class File and class Files of files.cpp and files.hpp: a received piece goes to the files that it
-- has bytes of.
pub mod Order
pub mod Opening
pub mod Search
pub mod Everywhere
pub mod Position
pub mod Layout
pub mod Source
use torrent_client.Base.{
  ℕ, zero, suc, ◌+◌, ◌/◌, List, [], ◌∷◌, Option, none, some, Bool, true, false, ◌||◌, ltb, ◌==◌,
  if◌then◌else◌, add64, sub64, mul64, Outcome, ok, throws, undefined, runtime_error, get_elem?,
  length,
}
use torrent_client.Platform.{Platform}
use torrent_client.TorrentFile.{FileInfo}

-- The outcome of an operation on the first element of a list, then on the rest.
abbrev pub prepend {ℓ} : {A : Type ℓ} → A → Outcome (List A) → Outcome (List A)
prepend a (ok xs) = ok (a ∷ xs)
prepend a (throws e xs) = throws e (a ∷ xs)
prepend a undefined = undefined

abbrev pub and_rest {ℓ} : {A : Type ℓ} → Outcome A → List A → Outcome (List A) → Outcome (List A)
and_rest (ok a) unchanged rest = prepend a rest
and_rest (throws e a) unchanged rest = throws e (a ∷ unchanged)
and_rest undefined unchanged rest = undefined

-- How the search for a file ends: at an index, at a read outside the array, or not within the fuel.
pub data Searched : Type 0 where
  found : ℕ → Searched
  out_of_bounds out_of_fuel : Searched

module _ (P : Platform) where
  -- class File
  pub record File : Type 0 where
    pub bitset : P.BitSet
    pub info : FileInfo
    pub piece_size : ℕ
    pub full : Bool
    pub fd : P.Fd

  abbrev pub first_index : File → ℕ
  first_index f = f.info.first_piece.index

  abbrev pub last_index : File → ℕ
  last_index f = f.info.last_piece.index

  -- File::File, with the descriptor that open_file gives
  unfoldable pub new_file : FileInfo → ℕ → P.Fd → File
  new_file fi piece_size fd = record {
    bitset = P.bind (mul64 (add64 (sub64 fi.last_piece.index fi.first_piece.index) 1) 8) P.no_bits;
    info = fi;
    piece_size = piece_size;
    full = false;
    fd = fd;
  }

  -- The part of piece `id` that belongs to the file: its offset in the piece and its size.
  unfoldable pub part_offset : File → ℕ → ℕ
  part_offset f id = if id == first_index f then f.info.first_piece.offset else 0

  unfoldable pub part_size : File → ℕ → ℕ → ℕ
  unfolding part_offset
  part_size f id source_size =
      sub64 (if id == last_index f then f.info.last_piece.offset else source_size)
        (part_offset f id)

  unfoldable pub offset_in_file : File → ℕ → ℕ
  offset_in_file f id =
      if id == first_index f
      then 0
      else add64 (sub64 f.piece_size f.info.first_piece.offset)
          (mul64 (sub64 id (first_index f)) f.piece_size)

  abbrev pub written : File → ℕ → ℕ → ℕ × P.Fd → Outcome File
  written f id size (n, fd) =
      if n == size
      then ok (record f { fd = fd; bitset = P.mark (sub64 id (first_index f)) f.bitset })
      else throws (runtime_error "error while writing: ") (record f { fd = fd })

  -- File::write_piece. A write that would take bytes from behind the source is undefined.
  unfoldable pub write_file : ℕ → (ℕ → ℕ) → ℕ → File → Outcome File
  unfolding part_offset part_size offset_in_file
  write_file id source source_size f =
      let offset = part_offset f id in
      let size = part_size f id source_size in
      if ltb id (first_index f) || ltb (last_index f) id
      then ok f
      else if ltb source_size (offset + size)
      then undefined
      else written f id size (P.pwrite f.fd (λ i. source (offset + i)) size (offset_in_file f id))

  -- The loop at the end of search: back over the files that begin with the piece.
  unfoldable pub back : List File → ℕ → ℕ → ℕ
  back files zero value = zero
  back files (suc middle) value = elim (get_elem? files (suc middle)) [
    | none ↦ suc middle
    | some f ↦
        let earlier = back files middle value in
        if first_index f == value then earlier else suc middle
  ]

  -- search, with fuel for its recursion
  unfoldable pub search_file : ℕ → List File → ℕ → ℕ → ℕ → Searched
  unfolding back
  search_file zero files begin end value = out_of_fuel
  search_file (suc fuel) files begin end value =
      let middle = (end + begin) / 2 in
      let right = search_file fuel files middle end value in
      let left = search_file fuel files begin middle value in
      elim (get_elem? files middle) [
        | none ↦ out_of_bounds
        | some f ↦
            if ltb (last_index f) value
            then right
            else if ltb value (first_index f)
            then left
            else found (back files middle value)
      ]

  -- The loop of Files::write_piece, from its second file on: it goes on over the files that begin
  -- with the piece.
  unfoldable pub write_while : ℕ → (ℕ → ℕ) → ℕ → List File → Outcome (List File)
  write_while id source size [] = ok []
  write_while id source size (f ∷ fs) =
      let rest = write_while id source size fs in
      if first_index f == id then and_rest (write_file id source size f) fs rest else ok (f ∷ fs)

  unfoldable pub write_from : ℕ → ℕ → (ℕ → ℕ) → ℕ → List File → Outcome (List File)
  unfolding write_while
  write_from n id source size [] = undefined
  write_from zero id source size (f ∷ fs) =
      and_rest (write_file id source size f) fs (write_while id source size fs)
  write_from (suc n) id source size (f ∷ fs) = prepend f (write_from n id source size fs)

  abbrev pub write_found : Searched → ℕ → (ℕ → ℕ) → ℕ → List File → Outcome (List File)
  write_found (found n) id source size files = write_from n id source size files
  write_found out_of_bounds id source size files = undefined
  write_found out_of_fuel id source size files = undefined

  -- Files::write_piece. A search that never ends exhausts the stack: undefined.
  unfoldable pub write_piece : ℕ → (ℕ → ℕ) → ℕ → List File → Outcome (List File)
  unfolding search_file write_from
  write_piece id source size files =
      write_found (search_file (length files + 1) files 0 (length files) id) id source size files
