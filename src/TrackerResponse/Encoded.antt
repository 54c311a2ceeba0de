-- ===== src/TrackerResponse/Encoded.antt =====
-- The answer of a tracker with an interval and the compact form of the peers, from its bytes to the
-- response.
use torrent_client.Base.{
  ℕ, ◌+◌, ◌-◌, ◌^◌, ◌≤◌, ◌<◌, ◌≡◌, refl, sym, ap, ◌∙◌, Bytes, codes, List, [], ◌∷◌, ◌++◌,
  append_assoc, append-nil, true, false, Option, some, take, drop, length, length-append, arith,
}
use torrent_client.Base.Decimal.{to_string}
use torrent_client.BeParser.{BeToken, int, str, dict_start, dict_end, done, parse}
use torrent_client.BeParser.Encoding.{Value, number, text, struct, nil, cons, encode, tokens}
use torrent_client.BeParser.Encoding.RoundTrip.{parse-encode}
use torrent_client.SubStrings.{SubStrings}
use torrent_client.TokenListProcessor.{filled, Number, stoll, fill_int, process}
use torrent_client.TokenListProcessor.Numbers.{stoll-to_string}
use torrent_client.BeParser.Encoding.Texts.{encode-Holds}
use torrent_client.TrackerResponse.{SockAddr, TrackerResponse, new_response}
use torrent_client.TrackerResponse.Filling.{fill_peers, fill_interval, respond}
use torrent_client.TrackerResponse.Peers.{Endpoint, compact, peers_at, fill_peers-compact}

abbrev pub answer_tokens : {D : Type 0} → D → D → D → D → D → D → List (BeToken D)
answer_tokens start interval_key interval peers_key peers end =
    record { type = dict_start; substr = start }
    ∷ record { type = str; substr = interval_key }
    ∷ record { type = int; substr = interval }
    ∷ record { type = str; substr = peers_key }
    ∷ record { type = str; substr = peers }
    ∷ record { type = dict_end; substr = end }
    ∷ []

-- The response with an interval and peers
abbrev pub answered : (Bytes → Bytes) → ℕ → List Endpoint → TrackerResponse
answered text_of interval es = record new_response {
  interval = interval;
  peers = peers_at text_of es;
  valid = true;
}

module _ (ss : SubStrings) (text_of : Bytes → Bytes) (get_sockaddr_in : Bytes → ℕ → Option SockAddr)
    (interval : ℕ) (e : Endpoint) (es : List Endpoint) where
  respond-tokens :
      (start interval_key interval_sub peers_key peers end : ss.SubString)
      (source front rest : Bytes)
      → source ≡ front ++ (compact (e ∷ es) ++ rest)
      → ss.str interval_key source ≡ codes "interval"
      → stoll (ss.str interval_sub source) ≡ Number.number interval
      → ss.str peers_key source ≡ codes "peers"
      → ss.start peers ≡ length front
      → ss.length peers ≡ length (compact (e ∷ es))
      → respond ss
          (λ bytes. some (text_of bytes))
          get_sockaddr_in
          (answer_tokens start interval_key interval_sub peers_key peers end)
          source
        ≡ filled (answered text_of interval (e ∷ es)) 6
  unfolding respond process fill_interval fill_int
  respond-tokens start interval_key interval_sub peers_key peers end source front rest parts key n
        peers_named at size =
      let tokens = answer_tokens start interval_key interval_sub peers_key peers end in
      let filled_peers =
        ap
          (λ bytes.
            fill_peers ss (λ b. some (text_of b)) get_sockaddr_in tokens bytes
              (record new_response { interval = interval }) 3)
          parts
        ∙ fill_peers-compact text_of ss get_sockaddr_in tokens front rest (e ∷ es) peers
            (record new_response { interval = interval }) 3 refl at size refl in
      rw (key, n, peers_named, filled_peers) refl

-- The answer: an interval, and the peers.
abbrev pub answer : ℕ → List Endpoint → Value
answer interval es = struct false (
    cons (text (codes "interval"))
      (cons (number interval) (cons (text (codes "peers")) (cons (text (compact es)) nil))))

regroup :
    (a b c d p e : Bytes)
    → (a ++ (b ++ (c ++ ((d ++ b':' ∷ p) ++ [])))) ++ e
      ≡ (a ++ (b ++ (c ++ (d ++ b':' ∷ [])))) ++ (p ++ e)
regroup a b c d p e = simp (append_assoc, append-nil)

module _ (ss : SubStrings) (text_of : Bytes → Bytes) (get_sockaddr_in : Bytes → ℕ → Option SockAddr)
    (starts : (from to : ℕ) → ss.start (ss.set from to) ≡ from)
    (lengths : (from to : ℕ) → from ≤ to → ss.length (ss.set from to) ≡ to - from)
    (texts : (from to : ℕ) (source : Bytes)
      → from ≤ to
      → ss.str (ss.set from to) source ≡ take (to - from) (drop from source))
    (interval : ℕ) (e : Endpoint) (es : List Endpoint) where
  abbrev source : Bytes
  source = encode (answer interval (e ∷ es))

  abbrev front : Bytes
  front =
      b'd'
      ∷ (encode (text (codes "interval"))
          ++ (encode (number interval)
              ++ (encode (text (codes "peers"))
                  ++ (to_string (length (compact (e ∷ es))) ++ b':' ∷ []))))

  source-parts : source ≡ front ++ (compact (e ∷ es) ++ b'e' ∷ [])
  source-parts = ap (◌∷◌ b'd') (
      regroup (encode (text (codes "interval"))) (encode (number interval))
        (encode (text (codes "peers"))) (to_string (length (compact (e ∷ es)))) (compact (e ∷ es))
        (b'e' ∷ []))

  front-length :
      0
        + 1
        + length (encode (text (codes "interval")))
        + length (encode (number interval))
        + length (encode (text (codes "peers")))
        + length (to_string (length (compact (e ∷ es))))
        + 1
      ≡ length front
  front-length =
      let d = to_string (length (compact (e ∷ es))) ++ b':' ∷ [] in
      omega (
        arith,
        length-append (encode (text (codes "interval")))
            (encode (number interval) ++ (encode (text (codes "peers")) ++ d)),
        length-append (encode (number interval)) (encode (text (codes "peers")) ++ d),
        length-append (encode (text (codes "peers"))) d,
        length-append (to_string (length (compact (e ∷ es)))) (b':' ∷ []),
      )

  -- The bencoding of an answer of a tracker with an interval below 2^63 and at least one peer in the
  -- compact form, of less than 2^63 bytes, is parsed to tokens of which the constructor of
  -- TrackerResponse makes a valid response with this interval and exactly these peers, in order,
  -- each with its address, its port and the socket address of both. inet_ntop gives a text for every
  -- address; SubString gives back the start of its place, its length, and the bytes of the text in
  -- it.
  pub respond-encode :
      length (encode (answer interval (e ∷ es))) < 2 ^ 63
      → interval < 2 ^ 63
      → (all : List (BeToken ss.SubString)) × ((parse ss.set (encode (answer interval (e ∷ es)))
            ≡ done all (length (encode (answer interval (e ∷ es)))))
          × (respond ss
                (λ bytes. some (text_of bytes))
                get_sockaddr_in
                all
                (encode (answer interval (e ∷ es)))
              ≡ filled (answered text_of interval (e ∷ es)) 6))
  respond-encode bound interval_bound =
      let held =
        encode-Holds ss texts source bound (answer interval (e ∷ es)) 0 []
          (sym (append-nil source)) in
      (
        tokens ss.set 0 (answer interval (e ∷ es)),
        (
          parse-encode ss.set (answer interval (e ∷ es)) bound,
          respond-tokens ss text_of get_sockaddr_in interval e es _ _ _ _ _ _ source front
              (b'e' ∷ []) source-parts held.0
              (ap stoll held.1.0 ∙ stoll-to_string interval interval_bound) held.1.1.0
              (starts _ _ ∙ front-length) (lengths _ _ (omega arith) ∙ omega arith),
        ),
      )
