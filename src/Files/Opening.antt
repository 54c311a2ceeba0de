-- ===== src/Files/Opening.antt =====
-- files.cpp: create_absolute_path, open_file, and the constructors that open the files of a torrent.
-- The directories and files of the system are a parameter.
pub mod Directories
use torrent_client.Base.{
  ℕ, zero, suc, ◌+◌, ◌-◌, ◌/◌, ◌%◌, ◌^◌, Bytes, codes, c_str, later, List, [], ◌∷◌, ◌++◌, Option,
  none, some, Bool, true, false, ◌==◌, ltb, if◌then◌else◌, take, drop, length,
}
use Prim.Native.String.{String}
use torrent_client.Platform.{Platform}
use torrent_client.TorrentFile.{FileInfo, TorrentFile}
use torrent_client.Files.{File, new_file}

-- stat of a path: its st_mode, if there is something; mkdir with mode 0700; and open
-- with O_RDWR | O_CREAT | O_TRUNC, which gives a descriptor or fails.
pub record FileSystem (Fd : Type 0) : Type 1 where
  pub State : Type 0
  pub stat : Bytes → State → Option ℕ
  pub mkdir : Bytes → State → State
  pub open_file : Bytes → State → Option Fd × State

-- st_mode & S_IFDIR, which is one bit
abbrev pub has_dir_bit : ℕ → Bool
has_dir_bit st_mode = st_mode / 2 ^ 14 % 2 == 1

-- What an operation on the file system does: it gives a result, or throws. Either way it leaves a
-- state of the file system.
pub data Opened (S A : Type 0) : Type 0 where
  opened : A → S → Opened S A
  refused : String → S → Opened S A
  undefined_behaviour : Opened S A
  out_of_fuel : Opened S A

abbrev pub and_then : {S A B : Type 0} → Opened S A → (A → S → Opened S B) → Opened S B
and_then (opened a s) k = k a s
and_then (refused e s) k = refused e s
and_then undefined_behaviour k = undefined_behaviour
and_then out_of_fuel k = out_of_fuel

-- find of '/', against npos
abbrev pub find_delimiter : Bytes → Option ℕ
find_delimiter [] = none
find_delimiter (c ∷ text) =
    let rest = find_delimiter text in if c == b'/' then some 0 else later rest

abbrev pub last_of : {A : Type 0} → List A → Option A
last_of [] = none
last_of (x ∷ []) = some x
last_of (x ∷ y ∷ xs) = last_of (y ∷ xs)

module _ (P : Platform) (fs : FileSystem P.Fd) where
  -- The test of a directory, which is made if nothing is there.
  unfoldable pub ensure : Bytes → fs.State → Opened fs.State Unit
  ensure path s = elim (fs.stat (c_str path) s) [
    | none ↦ opened tt (fs.mkdir (c_str path) s)
    | some st_mode ↦ if has_dir_bit st_mode then opened tt s else refused "not a dir: " s
  ]

  -- The loop of create_absolute_path
  unfoldable pub create_loop : ℕ → Bytes → ℕ → fs.State → Opened fs.State Unit
  unfolding ensure
  create_loop zero path offset s = out_of_fuel
  create_loop (suc fuel) path offset s =
      if ltb offset (length path)
      then elim (find_delimiter (drop offset path)) [
        | none ↦ ensure path s
        | some n ↦
            and_then (ensure (take (offset + n) path) s)
              (λ made. create_loop fuel path (offset + n + 1))
      ]
      else opened tt s

  unfoldable pub create_absolute_path : Bytes → fs.State → Opened fs.State Unit
  unfolding create_loop
  create_absolute_path path s = create_loop (length path + 1) path 0 s

  abbrev pub check_absolute_path : Option ℕ → Bytes → fs.State → Opened fs.State Unit
  check_absolute_path none path s = create_absolute_path path s
  check_absolute_path (some st_mode) path s =
      if has_dir_bit st_mode then opened tt s else refused "invalid absolute_path: " s

  -- The loop of open_file over the directories of the relative path: full_path behind it
  unfoldable pub enter_directories : Bytes → List Bytes → fs.State → Opened fs.State Bytes
  unfolding ensure
  enter_directories full_path [] s = opened full_path s
  enter_directories full_path (name ∷ []) s = opened full_path s
  enter_directories full_path (name ∷ next ∷ names) s =
      and_then (ensure (full_path ++ (name ++ codes "/")) s)
        (λ made. enter_directories (full_path ++ (name ++ codes "/")) (next ∷ names))

  abbrev pub open_result : Option P.Fd × fs.State → Opened fs.State P.Fd
  open_result (none, s) = refused "unable to open file: " s
  open_result (some fd, s) = opened fd s

  -- The end of open_file
  abbrev pub open_in : Option Bytes → Bytes → fs.State → Opened fs.State P.Fd
  open_in none full_path s = undefined_behaviour
  open_in (some name) full_path s = open_result (fs.open_file (c_str (full_path ++ name)) s)

  -- open_file. An empty relative path is undefined: its size less one wraps around.
  unfoldable pub open_file : Bytes → List Bytes → fs.State → Opened fs.State P.Fd
  unfolding create_absolute_path enter_directories
  open_file absolute_path relative_path s =
      and_then (check_absolute_path (fs.stat (c_str absolute_path) s) absolute_path s) (λ checked s.
        and_then (enter_directories (absolute_path ++ codes "/") relative_path s)
          (open_in (last_of relative_path)))

  -- Files::Files: the files in order
  unfoldable pub open_files : List FileInfo → ℕ → fs.State → Opened fs.State (List (File P))
  unfolding open_file
  open_files [] piece_size s = opened [] s
  open_files (info ∷ infos) piece_size s = and_then (open_file info.dir_name info.path s) (λ fd s.
      and_then (open_files infos piece_size s)
        (λ files. opened (new_file P info piece_size fd ∷ files)))
