-- ===== src/TorrentFile/Loading/Encoded.antt =====
-- The constructor of TorrentFile on the bencoding of a torrent with one file.
use torrent_client.Base.{
  ℕ, ◌+◌, ◌-◌, ◌*◌, ◌/◌, ◌%◌, ◌^◌, ◌≤◌, ◌<◌, ◌≡◌, refl, sym, ap, ◌∙◌, Bytes, codes, equal, List, [],
  ◌∷◌, append-nil, Bool, false, some, get_or, take, drop, length, arith,
}
use native.Mathlib.Nat.{div-add-mod}
use torrent_client.BeParser.{BeToken, dict_start}
use torrent_client.BeParser.Encoding.{
  Value, number, text, struct, Values, nil, cons, encode, token, tokens,
}
use torrent_client.BeParser.Encoding.RoundTrip.{parse-encode}
use torrent_client.SubStrings.{SubStrings}
use torrent_client.TokenListProcessor.{Filled, filled, then_do, stoll, process}
use torrent_client.TokenListProcessor.Numbers.{stoll-to_string}
use torrent_client.TorrentFile.{TorrentFile, fill_piece_offsets}
use torrent_client.TorrentFile.Reading.{cut_pieces}
use torrent_client.TorrentFile.Reading.Info.{new_file, fillers}
use torrent_client.TorrentFile.Reading.Pieces.{
  join, AreHashes, join-cut_pieces, AreHashes-cut_pieces,
}
use torrent_client.TorrentFile.InfoHash.{hexer, calculate_info_sha1}
use torrent_client.TorrentFile.InfoHash.Encoded.{torrent, tokens_before, calculate_info_sha1-value}
use torrent_client.TorrentFile.InfoHash.Skipping.{NoneIsInfo}
use torrent_client.TorrentFile.Loading.{
  new_torrent_file, with_offsets, load_tokens, load_parsed, load,
}
use torrent_client.TorrentFile.Loading.OneFile.{OneFile, one_file_tokens, HasKeys, process-one_file}
use torrent_client.BeParser.Encoding.Texts.{Holds, encode-Holds}

abbrev pub announce_values : Bytes → Values
announce_values announce = cons (text (codes "announce")) (cons (text announce) nil)

-- The info dictionary of one file: its size, its name, the size of a piece, and the hashes.
abbrev pub info_values : ℕ → Bytes → ℕ → Bytes → Values
info_values size name piece_size hashes = cons (text (codes "length")) (
    cons (number size) (
      cons (text (codes "name")) (
        cons (text name) (
          cons (text (codes "piece length"))
            (cons (number piece_size) (cons (text (codes "pieces")) (cons (text hashes) nil)))))))

abbrev pub one_file : Bytes → ℕ → Bytes → ℕ → Bytes → Value
one_file announce size name piece_size hashes =
    torrent (announce_values announce) (info_values size name piece_size hashes) nil

module _ (ss : SubStrings) (announce : Bytes) (size : ℕ) (name : Bytes) (piece_size : ℕ)
    (hashes : Bytes) where
  abbrev source : Bytes
  source = encode (one_file announce size name piece_size hashes)

  abbrev all : List (BeToken ss.SubString)
  all = tokens ss.set 0 (one_file announce size name piece_size hashes)

  abbrev place : ℕ → ss.SubString
  place k = (get_or all k (token ss.set dict_start 0 0)).substr

  abbrev places : OneFile ss.SubString
  places = record {
    start = place 0;
    announce_key = place 1;
    announce = place 2;
    info_key = place 3;
    info_start = place 4;
    length_key = place 5;
    length = place 6;
    name_key = place 7;
    name = place 8;
    piece_length_key = place 9;
    piece_length = place 10;
    pieces_key = place 11;
    pieces = place 12;
    info_end = place 13;
    end = place 14;
  }

  all-one_file : one_file_tokens places ≡ all
  all-one_file = refl

module _ (ss : SubStrings) (sha1 : Bytes → Bytes)
    (starts : (from to : ℕ) → ss.start (ss.set from to) ≡ from)
    (lengths : (from to : ℕ) → from ≤ to → ss.length (ss.set from to) ≡ to - from)
    (texts : (from to : ℕ) (source : Bytes)
      → from ≤ to
      → ss.str (ss.set from to) source ≡ take (to - from) (drop from source))
    (cuts : (sub : ss.SubString) (source : Bytes) (offset count : ℕ)
      → ss.substr sub source offset count ≡ take count (drop offset (ss.str sub source)))
    (path announce : Bytes) (size : ℕ) (name : Bytes) (piece_size : ℕ) (hashes : Bytes) where
  abbrev encoded : Bytes
  encoded = source ss announce size name piece_size hashes

  abbrev fields : OneFile ss.SubString
  fields = places ss announce size name piece_size hashes

  abbrev info : Bytes
  info = encode (struct false (info_values size name piece_size hashes))

  -- The object behind the loop over the tokens
  abbrev read_one_file : Bytes → Bytes → List Bytes → TorrentFile
  read_one_file announce name pieces = record (new_torrent_file path) {
    announce = announce;
    dir_name = name;
    piece_size = piece_size;
    pieces = pieces;
    files =
        record new_file { size = size; path = name ∷ []; dir_name = codes "/tmp/torrents/" } ∷ [];
  }

  -- The object before fill_piece_offsets
  abbrev pub filled_one_file : List Bytes → TorrentFile
  filled_one_file pieces = record (read_one_file announce name pieces) {
    info_sha1 = sha1 info;
    info_sha1_string = hexer (sha1 info);
  }

  module _ (bound : length (encode (one_file announce size name piece_size hashes)) < 2 ^ 63)
      (even : length hashes % 20 ≡ 0) where
    held : Holds ss texts encoded bound (one_file announce size name piece_size hashes) 0
    held =
        encode-Holds ss texts encoded bound (one_file announce size name piece_size hashes) 0 []
          (sym (append-nil encoded))

    keys : HasKeys ss fields encoded
    keys =
        let i = held.1.1.1.0 in
        (held.0, (held.1.1.0, (i.0, (i.1.1.0, (i.1.1.1.1.0, i.1.1.1.1.1.1.0)))))

    pieces-held : ss.str fields.pieces encoded ≡ hashes
    pieces-held = held.1.1.1.0.1.1.1.1.1.1.1.0

    pieces-length : ss.length fields.pieces ≡ length hashes
    pieces-length = lengths _ _ (omega arith) ∙ omega arith

    abbrev cut : ℕ → List Bytes
    cut count = cut_pieces ss (one_file_tokens fields) encoded fields.pieces count 0

    cut-join : (join (cut (length hashes / 20)) ≡ hashes) × AreHashes (cut (length hashes / 20))
    cut-join =
        let measures = pieces-length ∙ sym (ap length pieces-held) in
        let whole : length (ss.str fields.pieces encoded) ≡ (0 + length hashes / 20) * 20 =
          ap length pieces-held ∙ omega (arith, even, div-add-mod (length hashes) 20) in
        (
          join-cut_pieces ss (one_file_tokens fields) encoded fields.pieces
                (cuts fields.pieces encoded) measures (length hashes / 20) 0 whole
              ∙ pieces-held,
          AreHashes-cut_pieces ss (one_file_tokens fields) encoded fields.pieces
              (cuts fields.pieces encoded) measures (length hashes / 20) 0 whole,
        )

    process-encode :
        size < 2 ^ 63
        → piece_size < 2 ^ 63
        → process ss
            (one_file_tokens fields)
            encoded
            (fillers ss (one_file_tokens fields) encoded)
            (new_torrent_file path)
          ≡ filled (read_one_file announce name (cut (length hashes / 20))) 15
    process-encode size_bound piece_size_bound =
        let i = held.1.1.1.0 in
        process-one_file ss fields encoded path size piece_size keys
          (ap stoll i.1.0 ∙ stoll-to_string size size_bound)
          (ap stoll i.1.1.1.1.1.0 ∙ stoll-to_string piece_size piece_size_bound)
          (rw (pieces-length, even) refl)
        ∙ ap
            (λ n.
              filled
                (read_one_file (ss.str fields.announce encoded) (ss.str fields.name encoded)
                  (cut (n / 20)))
                15)
            pieces-length
        ∙ ap
            (λ a.
              filled (read_one_file a (ss.str fields.name encoded) (cut (length hashes / 20))) 15)
            held.1.0
        ∙ ap (λ n. filled (read_one_file announce n (cut (length hashes / 20))) 15) i.1.1.1.0

    none-IsInfo :
        equal announce (codes "info") ≡ false
        → NoneIsInfo ss sha1 encoded (
            tokens_before ss sha1 starts lengths texts
              (announce_values announce)
              (info_values size name piece_size hashes)
              nil
              bound)
    none-IsInfo not_info =
        let is_info : Bytes → Bool = λ bytes. equal bytes (codes "info") in
        (
          ap is_info (texts 0 0 encoded (omega arith)),
          (ap is_info held.0, (ap is_info held.1.0 ∙ not_info, tt)),
        )

    -- The constructor of TorrentFile on the bencoding of a torrent with one file, of less than 2^63
    -- bytes: the announce, then the info dictionary with the length, the name, the piece length and
    -- the hashes in this order. For numbers below 2^63, hashes whose length 20 divides, and an
    -- announce that is not the text info, it does what fill_piece_offsets does to an object with
    -- exactly these members, with one file of this size and name, with the hashes cut into pieces of
    -- 20 bytes, and with the hash of the bencoding of the info dictionary. SubString gives back the
    -- start of its place, its length, and the bytes of the text in it, also in parts.
    pub load-encode :
        size < 2 ^ 63
        → piece_size < 2 ^ 63
        → equal announce (codes "info") ≡ false
        → (pieces : List Bytes) × ((j : ℕ) × ((load ss sha1 path
                  (some (encode (one_file announce size name piece_size hashes)))
                ≡ with_offsets (fill_piece_offsets (filled_one_file pieces)) j)
              × ((join pieces ≡ hashes) × AreHashes pieces)))
    unfolding load load_tokens
    load-encode size_bound piece_size_bound not_info =
        let object = read_one_file announce name (cut (length hashes / 20)) in
        let (j, hashed) =
          calculate_info_sha1-value ss sha1 starts lengths texts (announce_values announce)
            (info_values size name piece_size hashes) nil bound object 15 (none-IsInfo not_info)
            tt in
        let last : TorrentFile → ℕ → Filled TorrentFile =
          λ u k. with_offsets (fill_piece_offsets u) k in
        (
          cut (length hashes / 20),
          (
            j,
            (
              ap (load_parsed ss sha1 path encoded)
                    (parse-encode ss.set (one_file announce size name piece_size hashes) bound)
                  ∙ ap
                      (λ r. then_do r (λ t k.
                        then_do
                          (calculate_info_sha1 ss sha1 encoded
                            (all ss announce size name piece_size hashes) t k)
                          last))
                      (process-encode size_bound piece_size_bound)
                  ∙ ap (λ r. then_do r last) hashed,
              cut-join,
            ),
          ),
        )
