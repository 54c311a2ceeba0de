-- ===== src/TorrentFile/Reading/Info.antt =====
-- torrent_file.cpp: the functions that fill a TorrentFile from the info dictionary.
use torrent_client.Base.{
  ℕ, zero, suc, ◌+◌, Bytes, codes, equal, List, [], ◌∷◌, ◌++◌, Bool, true, false, ◌&&◌, ltb,
  if◌then◌else◌, length,
}
use torrent_client.BeParser.{BeToken, TokenType, int, str, dict_start, dict_end}
use torrent_client.SubStrings.{SubStrings}
use torrent_client.TokenListProcessor.{
  Filled, filled, undefined_behaviour, unfinished, then_do, with_number, stoll, token_at, Filler,
  Fillers,
}
use torrent_client.TorrentFile.{FileInfo, OffsetInPiece, TorrentFile}
use torrent_client.TorrentFile.Reading.{
  read_lists, fill_announce, fill_announce_list, fill_creation_date, fill_comment, fill_created_by,
  fill_encoding, fill_pieces, is_list_start,
}

abbrev is_int : TokenType → Bool
is_int int = true
is_int other = false

abbrev is_str : TokenType → Bool
is_str str = true
is_str other = false

-- FileInfo()
abbrev pub new_file : FileInfo
new_file =
    let zero_offset : OffsetInPiece = record { index = 0; offset = 0 } in
    record {
      path = [];
      dir_name = [];
      md5_sum = [];
      size = 0;
      first_piece = zero_offset;
      last_piece = zero_offset;
    }

-- m_files[0] and m_files.back() are undefined where there is no file.
abbrev pub if_files : List FileInfo → Filled TorrentFile → Filled TorrentFile
if_files [] changed = undefined_behaviour
if_files (f ∷ fs) changed = changed

abbrev pub first_changed : (FileInfo → FileInfo) → List FileInfo → List FileInfo
first_changed change [] = []
first_changed change (f ∷ fs) = change f ∷ fs

abbrev pub last_changed : (FileInfo → FileInfo) → List FileInfo → List FileInfo
last_changed change [] = []
last_changed change (f ∷ []) = change f ∷ []
last_changed change (f ∷ g ∷ fs) = f ∷ last_changed change (g ∷ fs)

abbrev pub change_first : (FileInfo → FileInfo) → TorrentFile → ℕ → Filled TorrentFile
change_first change t i =
    if_files t.files (filled (record t { files = first_changed change t.files }) i)

abbrev pub change_back : (FileInfo → FileInfo) → TorrentFile → ℕ → Filled TorrentFile
change_back change t i =
    if_files t.files (filled (record t { files = last_changed change t.files }) i)

abbrev pub set_all_dirs : Bytes → List FileInfo → List FileInfo
set_all_dirs dir [] = []
set_all_dirs dir (f ∷ fs) = record f { dir_name = dir } ∷ set_all_dirs dir fs

abbrev pub push_path : Bytes → FileInfo → FileInfo
push_path name f = record f { path = f.path ++ name ∷ [] }

-- The end of fill_info, behind its loop
abbrev pub name_files : Bytes → List FileInfo → List FileInfo
name_files dir (f ∷ []) = set_all_dirs (codes "/tmp/torrents/") (push_path dir f ∷ [])
name_files dir files = set_all_dirs (codes "/tmp/torrents/" ++ dir) files

unfoldable pub finish_info : Filler TorrentFile
finish_info t i = filled (record t { files = name_files t.dir_name t.files }) i

module _ (ss : SubStrings) (tokens : List (BeToken ss.SubString)) (source : Bytes) where
  -- The value of a key of a file's dictionary
  unfoldable pub set_file : Bytes → TorrentFile → ℕ → TokenType → ss.SubString → Filled TorrentFile
  unfolding read_lists
  set_file key t i type value =
      if equal key (codes "path") && is_list_start type
      then read_lists ss tokens source i
          (λ strings. change_back (λ f. record f { path = f.path ++ strings }) t)
      else if equal key (codes "md5sum") && is_str type
      then change_back (λ f. record f { md5_sum = ss.str value source }) t i
      else if equal key (codes "length") && is_int type
      then with_number (stoll (ss.str value source))
          (λ n. change_back (λ f. record f { size = n }) t i)
      else filled t i

  -- The inner loop's body, with the loop as an argument
  abbrev pub file_token :
      Filler TorrentFile → TorrentFile → ℕ → TokenType → ss.SubString → Filled TorrentFile
  file_token loop t i str key =
      then_do (token_at tokens (i + 1) (set_file (ss.str key source) t (i + 1)))
        (λ t j. loop t (j + 1))
  file_token loop t i other sub = filled t i

  unfoldable pub file_loop : ℕ → Filler TorrentFile
  unfolding set_file
  file_loop zero t i = unfinished
  file_loop (suc fuel) t i =
      if ltb i (length tokens)
      then token_at tokens i (file_token (file_loop fuel) t i)
      else filled t i

  -- The outer loop's body, with the loop as an argument
  abbrev pub files_token :
      Filler TorrentFile → Bool → TorrentFile → ℕ → TokenType → ss.SubString → Filled TorrentFile
  files_token loop first_iter t i dict_start sub =
      let u = if first_iter then t else record t { files = t.files ++ new_file ∷ [] } in
      then_do (file_loop (length tokens + 1) u (i + 1)) loop
  files_token loop first_iter t i other sub = filled t i

  unfoldable pub files_loop : ℕ → Bool → Filler TorrentFile
  unfolding file_loop
  files_loop zero first_iter t i = unfinished
  files_loop (suc fuel) first_iter t i =
      if ltb i (length tokens)
      then token_at tokens i (files_token (files_loop fuel false) first_iter t i)
      else filled t i

  unfoldable pub fill_files : Filler TorrentFile
  unfolding files_loop
  fill_files t i = files_loop (length tokens + 1) true t (i + 1)

  -- The value of a key of the info dictionary
  unfoldable pub set_info : Bytes → TorrentFile → ℕ → TokenType → ss.SubString → Filled TorrentFile
  unfolding fill_pieces fill_files
  set_info key t i type value =
      if equal key (codes "piece length") && is_int type
      then with_number (stoll (ss.str value source)) (λ n. filled (record t { piece_size = n }) i)
      else if equal key (codes "private") && is_int type
      then with_number (stoll (ss.str value source)) (λ n. filled (record t { private_flag = n }) i)
      else if equal key (codes "pieces") && is_str type
      then fill_pieces ss tokens source value t i
      else if equal key (codes "name") && is_str type
      then filled (record t { dir_name = ss.str value source }) i
      else if equal key (codes "md5sum") && is_str type
      then change_first (λ f. record f { md5_sum = ss.str value source }) t i
      else if equal key (codes "length") && is_int type
      then with_number (stoll (ss.str value source))
          (λ n. change_first (λ f. record f { size = n }) t i)
      else if equal key (codes "files") && is_list_start type
      then fill_files t i
      else filled t i

  -- The body of the loop of fill_info, with the loop as an argument
  abbrev pub info_token :
      Filler TorrentFile → TorrentFile → ℕ → TokenType → ss.SubString → Filled TorrentFile
  info_token loop t i str key =
      then_do (token_at tokens (i + 1) (set_info (ss.str key source) t (i + 1)))
        (λ t j. loop t (j + 1))
  info_token loop t i dict_end sub = filled t (i + 1)
  info_token loop t i other sub = filled t (length tokens)

  unfoldable pub info_loop : ℕ → Filler TorrentFile
  unfolding set_info
  info_loop zero t i = unfinished
  info_loop (suc fuel) t i =
      if ltb i (length tokens)
      then token_at tokens i (info_token (info_loop fuel) t i)
      else filled t i

  abbrev pub info_value : TorrentFile → ℕ → TokenType → ss.SubString → Filled TorrentFile
  info_value t i dict_start sub =
      then_do
        (info_loop (length tokens + 1) (record t { files = t.files ++ new_file ∷ [] }) (i + 1))
        finish_info
  info_value t i other sub = filled t (length tokens)

  unfoldable pub fill_info : Filler TorrentFile
  unfolding info_loop finish_info
  fill_info t i = token_at tokens (i + 1) (info_value t (i + 1))

  -- m_fillers
  abbrev pub fillers : Fillers TorrentFile
  fillers =
      (codes "info", fill_info)
      ∷ (codes "comment", fill_comment ss tokens source)
      ∷ (codes "announce", fill_announce ss tokens source)
      ∷ (codes "encoding", fill_encoding ss tokens source)
      ∷ (codes "created by", fill_created_by ss tokens source)
      ∷ (codes "announce-list", fill_announce_list ss tokens source)
      ∷ (codes "creation date", fill_creation_date ss tokens source)
      ∷ []
