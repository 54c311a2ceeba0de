-- ===== src/TorrentFile/Reading/Lists.antt =====
-- read_lists of torrent_file.cpp on lists that hold strings, numbers and further lists.
use torrent_client.Base.{
  ℕ, suc, ◌+◌, ◌≡◌, refl, ap, ◌∙◌, Bytes, List, [], ◌∷◌, ◌++◌, append_assoc, append-nil, Bool, true,
  false, length, length-append, get_elem?-behind, drop-behind, arith,
}
use torrent_client.BeParser.{BeToken, TokenType, int, str, list_start, list_end}
use torrent_client.SubStrings.{SubStrings}
use torrent_client.TokenListProcessor.{filled}
use torrent_client.TokenListProcessor.Values.{token_at-get_elem?}
use torrent_client.TorrentFile.{TorrentFile}
use torrent_client.TorrentFile.Reading.{read_list_tokens, read_lists, fill_announce_list, counted}

mutual
  -- A value of a bencoded list: a string or a number, or a list between two tokens.
  pub data Item (D : Type 0) : Type 0 where
    leaf : Bool → D → Item D
    nested : D → Items D → D → Item D

  pub data Items (D : Type 0) : Type 0 where
    nil : Items D
    cons : Item D → Items D → Items D

module _ {D : Type 0} where
  abbrev token : TokenType → D → BeToken D
  token type sub = record { type = type; substr = sub }

  abbrev mutual
    pub item_tokens : Item D → List (BeToken D)
    item_tokens (leaf true sub) = token str sub ∷ []
    item_tokens (leaf false sub) = token int sub ∷ []
    item_tokens (nested start items end) =
        token list_start start ∷ (items_tokens items ++ token list_end end ∷ [])

    pub items_tokens : Items D → List (BeToken D)
    items_tokens nil = []
    items_tokens (cons item items) = item_tokens item ++ items_tokens items

module _ (ss : SubStrings) (source : Bytes) where
  abbrev mutual
    pub item_strings : Item ss.SubString → List Bytes
    item_strings (leaf is_str sub) = ss.str sub source ∷ []
    item_strings (nested start items end) = items_strings items

    pub items_strings : Items ss.SubString → List Bytes
    items_strings nil = []
    items_strings (cons item items) = item_strings item ++ items_strings items

  -- Strings, and a number of tokens, in front of what is read behind them.
  abbrev after : List Bytes → ℕ → List Bytes × ℕ → List Bytes × ℕ
  after strings n (more, m) = (strings ++ more, n + m)

  after-none : (r : List Bytes × ℕ) → r ≡ after [] 0 r
  after-none (more, m) = ap (λ k. (more, k)) (omega arith)

  counted-one : (xs : List Bytes) (r : List Bytes × ℕ) → counted xs r ≡ after xs 1 r
  counted-one xs (more, m) = ap (λ k. (xs ++ more, k)) (omega arith)

  counted-after :
      (xs ys : List Bytes) (n k : ℕ) (r : List Bytes × ℕ)
      → k ≡ suc n
      → counted xs (after ys n r) ≡ after (xs ++ ys) k r
  counted-after xs ys n k (more, m) e =
      rw (append_assoc xs ys more, (let total : suc (n + m) ≡ k + m = omega arith in total)) refl

  after-after :
      (xs ys : List Bytes) (m n k : ℕ) (r : List Bytes × ℕ)
      → k ≡ m + n
      → after xs m (after ys n r) ≡ after (xs ++ ys) k r
  after-after xs ys m n k (more, l) e =
      rw (append_assoc xs ys more, (let total : m + (n + l) ≡ k + l = omega arith in total)) refl

  mutual
    unfolding read_list_tokens

    read_list_tokens-item :
        (item : Item ss.SubString) (depth : ℕ) (rest : List (BeToken ss.SubString))
        → read_list_tokens ss source (suc depth) (item_tokens item ++ rest)
          ≡ after
              (item_strings item)
              (length (item_tokens item))
              (read_list_tokens ss source (suc depth) rest)
    read_list_tokens-item (leaf true sub) depth rest = counted-one (ss.str sub source ∷ []) _
    read_list_tokens-item (leaf false sub) depth rest = counted-one (ss.str sub source ∷ []) _
    read_list_tokens-item (nested start items end) depth rest =
        ap (λ tokens. counted [] (read_list_tokens ss source (suc (suc depth)) tokens))
          (append_assoc (items_tokens items) (token list_end end ∷ []) rest)
        ∙ ap (counted []) (
            read_list_tokens-items items (suc depth) (token list_end end ∷ rest)
            ∙ ap (after (items_strings items) (length (items_tokens items))) (counted-one [] _)
            ∙ after-after (items_strings items) [] _ 1 _ _ refl)
        ∙ counted-after [] (items_strings items ++ []) (length (items_tokens items) + 1)
            (length (item_tokens (nested start items end))) _
            (omega (arith, length-append (items_tokens items) (token list_end end ∷ [])))
        ∙ rw (append-nil (items_strings items)) refl

    read_list_tokens-items :
        (items : Items ss.SubString) (depth : ℕ) (rest : List (BeToken ss.SubString))
        → read_list_tokens ss source (suc depth) (items_tokens items ++ rest)
          ≡ after
              (items_strings items)
              (length (items_tokens items))
              (read_list_tokens ss source (suc depth) rest)
    read_list_tokens-items nil depth rest = after-none _
    read_list_tokens-items (cons item items) depth rest =
        ap (read_list_tokens ss source (suc depth))
          (append_assoc (item_tokens item) (items_tokens items) rest)
        ∙ read_list_tokens-item item depth (items_tokens items ++ rest)
        ∙ ap (after (item_strings item) (length (item_tokens item)))
            (read_list_tokens-items items depth rest)
        ∙ after-after (item_strings item) (items_strings items) _ _ _ _
            (length-append (item_tokens item) (items_tokens items))

  read_list_tokens-whole :
      (items : Items ss.SubString) (end : ss.SubString) (rest : List (BeToken ss.SubString))
      → read_list_tokens ss source 1 ((items_tokens items ++ token list_end end ∷ []) ++ rest)
        ≡ (items_strings items, length (items_tokens items ++ token list_end end ∷ []))
  unfolding read_list_tokens
  read_list_tokens-whole items end rest =
      let body = items_tokens items in
      let counts : length body + 1 ≡ length (body ++ token list_end end ∷ []) =
        omega (arith, length-append body (token list_end end ∷ [])) in
      ap (read_list_tokens ss source 1) (append_assoc body (token list_end end ∷ []) rest)
      ∙ read_list_tokens-items items 0 (token list_end end ∷ rest)
      ∙ rw (append-nil (items_strings items), counts) refl

  -- Where the key announce-list is followed by a list, however deep it nests further lists, the
  -- announce list becomes all the strings and numbers of the list, in order, and the next token is
  -- the one behind the list.
  pub fill_announce_list-strings :
      (front rest : List (BeToken ss.SubString)) (key start end : ss.SubString)
      (items : Items ss.SubString) (t : TorrentFile)
      → fill_announce_list ss
          (front ++ token str key ∷ (item_tokens (nested start items end) ++ rest))
          source
          t
          (length front)
        ≡ filled
            (record t { announce_list = items_strings items })
            (length front + 1 + length (item_tokens (nested start items end)))
  unfolding fill_announce_list read_lists
  fill_announce_list-strings front rest key start end items t =
      let body = items_tokens items ++ token list_end end ∷ [] in
      let behind = token str key ∷ token list_start start ∷ (body ++ rest) in
      token_at-get_elem? (front ++ behind) (length front + 1) (token list_start start) _
        (get_elem?-behind front behind (length front + 1) 1 refl)
      ∙ rw
          (
            drop-behind front behind (length front + 1 + 1) 2 (omega arith),
            read_list_tokens-whole items end rest,
          )
          (ap (filled (record t { announce_list = items_strings items })) (omega arith))
