-- ===== src/TorrentFile/Reading/Progress.antt =====
-- The fuel of the loops of torrent_file.cpp that fill a TorrentFile.
use torrent_client.Base.{
  ℕ, zero, suc, ◌+◌, ◌%◌, ◌<◌, inl, inr, Bytes, List, [], ◌∷◌, ◌++◌, Bool, true, false, ltb, ◌==◌,
  Bool-cases, if◌then◌else◌, drop, length, arith,
}
use torrent_client.BeParser.{BeToken, TokenType, str, dict_start, dict_end}
use torrent_client.SubStrings.{SubStrings}
use torrent_client.TokenListProcessor.{Filled, filled, stoll, Filler}
use torrent_client.TokenListProcessor.Progress.{
  FillsFrom, ends, raises, breaks, FillsFrom-mono, if-FillsFrom, then_do-FillsFrom,
  with_number-FillsFrom, token_at-FillsFrom, fill_int-FillsFrom, fill_str-FillsFrom,
  set_str-FillsFrom, AllAdvance,
}
use torrent_client.TorrentFile.{FileInfo, TorrentFile}
use torrent_client.TorrentFile.Reading.{
  read_lists, read_list_tokens, is_list_start, fill_announce, fill_announce_list,
  fill_creation_date, fill_comment, fill_created_by, fill_encoding, fill_pieces,
}
use torrent_client.TorrentFile.Reading.Info.{
  if_files, change_first, change_back, set_file, file_token, file_loop, files_token, files_loop,
  fill_files, set_info, info_token, info_loop, info_value, finish_info, fill_info, fillers,
}

stays : {t : TorrentFile} {i : ℕ} → FillsFrom i (filled t i)
stays = ends _ _ (omega arith)

if_files-FillsFrom :
    {low : ℕ} (files : List FileInfo) {r : Filled TorrentFile}
    → FillsFrom low r
    → FillsFrom low (if_files files r)
if_files-FillsFrom [] h = breaks
if_files-FillsFrom (f ∷ fs) h = h

module _ (ss : SubStrings) (tokens : List (BeToken ss.SubString)) (source : Bytes) where
  read_lists-FillsFrom :
      (i : ℕ) {k : List Bytes → ℕ → Filled TorrentFile}
      → ((strings : List Bytes) (j : ℕ) → i < j → FillsFrom (suc i) (k strings j))
      → FillsFrom (suc i) (read_lists ss tokens source i k)
  unfolding read_lists
  read_lists-FillsFrom i h = token_at-FillsFrom tokens i (λ type sub l.
      let r =
        read_list_tokens ss source (if is_list_start type then 1 else 0) (drop (i + 1) tokens) in
      h r.0 (i + 1 + r.1) (omega arith))

  set_file-FillsFrom :
      (key : Bytes) (t : TorrentFile) (i : ℕ) (type : TokenType) (value : ss.SubString)
      → FillsFrom i (set_file ss tokens source key t i type value)
  unfolding set_file
  set_file-FillsFrom key t i type value =
      if-FillsFrom _
        (FillsFrom-mono (omega arith) (
          read_lists-FillsFrom i
            {k = λ strings. change_back (λ f. record f { path = f.path ++ strings }) t}
            (λ strings j l. if_files-FillsFrom t.files (ends _ j l))))
        (if-FillsFrom _ (if_files-FillsFrom t.files stays) (
          if-FillsFrom _
            (with_number-FillsFrom (stoll (ss.str value source))
              (λ n. if_files-FillsFrom t.files stays))
            (ends t i (omega arith))))

  file_token-FillsFrom :
      (loop : Filler TorrentFile) (t : TorrentFile) (i : ℕ) (type : TokenType) (sub : ss.SubString)
      → ((u : TorrentFile) (j : ℕ) → i < j → FillsFrom j (loop u j))
      → FillsFrom i (file_token ss tokens source loop t i type sub)
  file_token-FillsFrom loop t i str key h =
      then_do-FillsFrom
        (token_at-FillsFrom tokens (i + 1)
          (λ type value l. set_file-FillsFrom (ss.str key source) t (i + 1) type value))
        (λ u j l. FillsFrom-mono (omega arith) (h u (j + 1) (omega arith)))
  file_token-FillsFrom loop t i other sub h = ends t i (omega arith)

  file_loop-FillsFrom :
      (fuel : ℕ) (t : TorrentFile) (i : ℕ)
      → 0 < fuel
      → length tokens < fuel + i
      → FillsFrom i (file_loop ss tokens source fuel t i)
  unfolding file_loop
  file_loop-FillsFrom zero t i z h = absurd (omega arith)
  file_loop-FillsFrom (suc fuel) t i z h = elim (Bool-cases (ltb i (length tokens))) [
    | inr l ↦ rw l (ends t i (omega arith))
    | inl l ↦ rw l (
        token_at-FillsFrom tokens i (λ type sub m.
          file_token-FillsFrom (file_loop ss tokens source fuel) t i type sub
            (λ u j g. file_loop-FillsFrom fuel u j (omega arith) (omega arith))))
  ]

  files_token-FillsFrom :
      (loop : Filler TorrentFile) (first_iter : Bool) (t : TorrentFile) (i : ℕ) (type : TokenType)
      (sub : ss.SubString)
      → ((u : TorrentFile) (j : ℕ) → i < j → FillsFrom j (loop u j))
      → FillsFrom i (files_token ss tokens source loop first_iter t i type sub)
  files_token-FillsFrom loop first_iter t i dict_start sub h =
      then_do-FillsFrom
        (file_loop-FillsFrom (length tokens + 1) _ (i + 1) (omega arith) (omega arith))
        (λ u j l. FillsFrom-mono (omega arith) (h u j (omega arith)))
  files_token-FillsFrom loop first_iter t i other sub h = ends t i (omega arith)

  files_loop-FillsFrom :
      (fuel : ℕ) (first_iter : Bool) (t : TorrentFile) (i : ℕ)
      → 0 < fuel
      → length tokens < fuel + i
      → FillsFrom i (files_loop ss tokens source fuel first_iter t i)
  unfolding files_loop
  files_loop-FillsFrom zero first_iter t i z h = absurd (omega arith)
  files_loop-FillsFrom (suc fuel) first_iter t i z h = elim (Bool-cases (ltb i (length tokens))) [
    | inr l ↦ rw l (ends t i (omega arith))
    | inl l ↦ rw l (
        token_at-FillsFrom tokens i (λ type sub m.
          files_token-FillsFrom (files_loop ss tokens source fuel false) first_iter t i type sub
            (λ u j g. files_loop-FillsFrom fuel false u j (omega arith) (omega arith))))
  ]

  fill_pieces-FillsFrom :
      (value : ss.SubString) (t : TorrentFile) (i : ℕ)
      → FillsFrom i (fill_pieces ss tokens source value t i)
  unfolding fill_pieces
  fill_pieces-FillsFrom value t i =
      if-FillsFrom (ss.length value % 20 == 0) (ends _ (i + 1) (omega arith)) (raises _)

  fill_files-FillsFrom : (t : TorrentFile) (i : ℕ) → FillsFrom i (fill_files ss tokens source t i)
  unfolding fill_files
  fill_files-FillsFrom t i =
      FillsFrom-mono (omega arith)
        (files_loop-FillsFrom (length tokens + 1) true t (i + 1) (omega arith) (omega arith))

  set_info-FillsFrom :
      (key : Bytes) (t : TorrentFile) (i : ℕ) (type : TokenType) (value : ss.SubString)
      → FillsFrom i (set_info ss tokens source key t i type value)
  unfolding set_info
  set_info-FillsFrom key t i type value =
      let number = stoll (ss.str value source) in
      if-FillsFrom _
        (with_number-FillsFrom number {k = λ n. filled (record t { piece_size = n }) i}
          (λ n. stays))
        (if-FillsFrom _
          (with_number-FillsFrom number {k = λ n. filled (record t { private_flag = n }) i}
            (λ n. stays))
          (if-FillsFrom _ (fill_pieces-FillsFrom value t i) (
            if-FillsFrom _ stays (
              if-FillsFrom _ (if_files-FillsFrom t.files stays) (
                if-FillsFrom _
                  (with_number-FillsFrom number
                    {k = λ n. change_first (λ f. record f { size = n }) t i}
                    (λ n. if_files-FillsFrom t.files stays))
                  (if-FillsFrom _ (fill_files-FillsFrom t i) stays))))))

  info_token-FillsFrom :
      (loop : Filler TorrentFile) (t : TorrentFile) (i : ℕ) (type : TokenType) (sub : ss.SubString)
      → i < length tokens
      → ((u : TorrentFile) (j : ℕ) → i < j → FillsFrom j (loop u j))
      → FillsFrom i (info_token ss tokens source loop t i type sub)
  info_token-FillsFrom loop t i str key l h =
      then_do-FillsFrom
        (token_at-FillsFrom tokens (i + 1)
          (λ type value m. set_info-FillsFrom (ss.str key source) t (i + 1) type value))
        (λ u j g. FillsFrom-mono (omega arith) (h u (j + 1) (omega arith)))
  info_token-FillsFrom loop t i dict_end sub l h = ends t (i + 1) (omega arith)
  info_token-FillsFrom loop t i other sub l h = ends t (length tokens) (omega arith)

  info_loop-FillsFrom :
      (fuel : ℕ) (t : TorrentFile) (i : ℕ)
      → 0 < fuel
      → length tokens < fuel + i
      → FillsFrom i (info_loop ss tokens source fuel t i)
  unfolding info_loop
  info_loop-FillsFrom zero t i z h = absurd (omega arith)
  info_loop-FillsFrom (suc fuel) t i z h = elim (Bool-cases (ltb i (length tokens))) [
    | inr l ↦ rw l (ends t i (omega arith))
    | inl l ↦ rw l (
        token_at-FillsFrom tokens i (λ type sub m.
          info_token-FillsFrom (info_loop ss tokens source fuel) t i type sub m
            (λ u j g. info_loop-FillsFrom fuel u j (omega arith) (omega arith))))
  ]

  info_value-FillsFrom :
      (t : TorrentFile) (i : ℕ) (type : TokenType) (sub : ss.SubString)
      → i < length tokens
      → FillsFrom i (info_value ss tokens source t i type sub)
  unfolding finish_info
  info_value-FillsFrom t i dict_start sub l =
      then_do-FillsFrom
        (info_loop-FillsFrom (length tokens + 1) _ (i + 1) (omega arith) (omega arith))
        (λ u j g. ends _ j (omega arith))
  info_value-FillsFrom t i other sub l = ends t (length tokens) (omega arith)

  pub fillers-AllAdvance : AllAdvance (fillers ss tokens source)
  unfolding fill_info fill_comment fill_announce fill_encoding fill_created_by fill_announce_list
      fill_creation_date
  fillers-AllAdvance =
      let str_advances = fill_str-FillsFrom ss tokens source in
      (
        λ t i. FillsFrom-mono (omega arith) (
            token_at-FillsFrom tokens (i + 1)
              (λ type sub l. info_value-FillsFrom t (i + 1) type sub l)),
        (
          str_advances (λ t s. record t { comment = s }),
          (
            λ t i. FillsFrom-mono (omega arith) (
                token_at-FillsFrom tokens (i + 1) (λ type sub l.
                  set_str-FillsFrom ss tokens source (λ t s. record t { announce = s }) t (i + 1)
                    type sub)),
            (
              str_advances (λ t s. record t { encoding = s }),
              (
                str_advances (λ t s. record t { created_by = s }),
                (
                  λ t i. FillsFrom-mono (omega arith) (
                      read_lists-FillsFrom (i + 1)
                        {k = λ strings j. filled (record t { announce_list = strings }) j}
                        (λ strings j l. ends _ j (omega arith))),
                  (fill_int-FillsFrom ss tokens source _, tt),
                ),
              ),
            ),
          ),
        ),
      )
