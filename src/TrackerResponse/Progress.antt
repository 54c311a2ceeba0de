-- ===== src/TrackerResponse/Progress.antt =====
-- The constructor of TrackerResponse ends.
use torrent_client.Base.{
  ℕ, ◌+◌, Bytes, codes, equal, List, [], ◌∷◌, Option, none, some, drop, arith,
}
use torrent_client.BeParser.{BeToken, TokenType, str, list_start, dict_start, dict_end}
use torrent_client.SubStrings.{SubStrings}
use torrent_client.TokenListProcessor.{Filled, stoll, Filler}
use torrent_client.TokenListProcessor.Progress.{
  FillsFrom, ends, raises, breaks, FillsFrom-mono, then_do-FillsFrom, if-FillsFrom,
  with_number-FillsFrom, token_at-FillsFrom, fill_int-FillsFrom, fill_str-FillsFrom, AllAdvance,
  process-FillsFrom,
}
use torrent_client.TrackerResponse.{
  SockAddr, Peer, TrackerResponse, new_response, back, with_back, set_peer, Compact, all_set,
  invalid_ip, too_short,
}
use torrent_client.TrackerResponse.Filling.{
  store_peers, fill_peers_compact, with_saddr, set_back_saddr, detail_token, detail_loop,
  fill_peers_detail, fill_peers_at, fill_peers, fill_failure_reason, fill_warning, fill_interval,
  fill_min_interval, fill_tracker_id, fill_complete, fill_incomplete, fillers, validate, respond_to,
  respond,
}

with_back-FillsFrom :
    {low : ℕ} (p : Option Peer) {k : Peer → Filled TrackerResponse}
    → ((q : Peer) → FillsFrom low (k q))
    → FillsFrom low (with_back p k)
with_back-FillsFrom none h = breaks
with_back-FillsFrom (some p) h = h p

set_peer-FillsFrom :
    {low : ℕ} (key value : Bytes) (t : TrackerResponse)
    {k : TrackerResponse → Filled TrackerResponse}
    → ((u : TrackerResponse) → FillsFrom low (k u))
    → FillsFrom low (set_peer key value t k)
set_peer-FillsFrom key value t {k} h =
    if-FillsFrom (equal key (codes "peer id")) (with_back-FillsFrom (back t.peers) (λ p. h _)) (
      if-FillsFrom (equal key (codes "ip")) (with_back-FillsFrom (back t.peers) (λ p. h _)) (
        if-FillsFrom (equal key (codes "port"))
          (with_number-FillsFrom (stoll value) (λ n. with_back-FillsFrom (back t.peers) (λ p. h _)))
          (h t)))

module _ (ss : SubStrings) (inet_ntop : Bytes → Option Bytes)
    (get_sockaddr_in : Bytes → ℕ → Option SockAddr) (tokens : List (BeToken ss.SubString))
    (source : Bytes) where
  with_saddr-FillsFrom :
      {low : ℕ} (saddr : Option SockAddr) {k : SockAddr → Filled TrackerResponse}
      → ((a : SockAddr) → FillsFrom low (k a))
      → FillsFrom low (with_saddr ss inet_ntop get_sockaddr_in tokens source saddr k)
  with_saddr-FillsFrom none h = raises _
  with_saddr-FillsFrom (some saddr) h = h saddr

  set_back_saddr-FillsFrom :
      {low : ℕ} (t : TrackerResponse) {k : TrackerResponse → Filled TrackerResponse}
      → ((u : TrackerResponse) → FillsFrom low (k u))
      → FillsFrom low (set_back_saddr ss inet_ntop get_sockaddr_in tokens source t k)
  set_back_saddr-FillsFrom t h =
      with_back-FillsFrom (back t.peers)
        (λ p. with_saddr-FillsFrom (get_sockaddr_in p.ip p.port) (λ saddr. h _))

  store_peers-FillsFrom :
      (t : TrackerResponse) (i : ℕ) (r : Compact)
      → FillsFrom i (store_peers ss inet_ntop get_sockaddr_in tokens source t i r)
  store_peers-FillsFrom t i (all_set peers) = ends _ i (omega arith)
  store_peers-FillsFrom t i invalid_ip = raises _
  store_peers-FillsFrom t i too_short = breaks

  detail_token-FillsFrom :
      (type : TokenType) (t : TrackerResponse) (i : ℕ) {next : Filler TrackerResponse}
      {value : Filled TrackerResponse}
      → ((u : TrackerResponse) (j : ℕ) → FillsFrom j (next u j))
      → FillsFrom i value
      → FillsFrom i (detail_token ss inet_ntop get_sockaddr_in tokens source type t i next value)
  detail_token-FillsFrom dict_start t i h v = FillsFrom-mono (omega arith) (h _ (i + 1))
  detail_token-FillsFrom dict_end t i h v =
      set_back_saddr-FillsFrom t (λ u. FillsFrom-mono (omega arith) (h u (i + 1)))
  detail_token-FillsFrom str t i h v = v
  detail_token-FillsFrom other t i h v = FillsFrom-mono (omega arith) (h t (i + 1))

  detail_loop-FillsFrom :
      (rest : List (BeToken ss.SubString)) (t : TrackerResponse) (i : ℕ)
      → FillsFrom i (detail_loop ss inet_ntop get_sockaddr_in tokens source rest t i)
  unfolding detail_loop
  detail_loop-FillsFrom [] t i = ends t i (omega arith)
  detail_loop-FillsFrom (a ∷ []) t i =
      detail_token-FillsFrom a.type t i (λ u j. ends u j (omega arith)) breaks
  detail_loop-FillsFrom (a ∷ b ∷ rest) t i =
      detail_token-FillsFrom a.type t i (λ u j. detail_loop-FillsFrom (b ∷ rest) u j)
        (set_peer-FillsFrom (ss.str a.substr source) (ss.str b.substr source) t
          (λ u. FillsFrom-mono (omega arith) (detail_loop-FillsFrom rest u (i + 2))))

  fill_peers_detail-FillsFrom :
      (type : TokenType) (t : TrackerResponse) (i : ℕ)
      → FillsFrom i (fill_peers_detail ss inet_ntop get_sockaddr_in tokens source type t i)
  unfolding fill_peers_detail
  fill_peers_detail-FillsFrom list_start t i =
      FillsFrom-mono (omega arith) (detail_loop-FillsFrom (drop (i + 1) tokens) t (i + 1))
  fill_peers_detail-FillsFrom other t i = raises _

  fill_peers_at-FillsFrom :
      (t : TrackerResponse) (i : ℕ) (type : TokenType) (sub : ss.SubString)
      → FillsFrom i (fill_peers_at ss inet_ntop get_sockaddr_in tokens source t i type sub)
  unfolding fill_peers_compact
  fill_peers_at-FillsFrom t i str sub =
      FillsFrom-mono (omega arith) (store_peers-FillsFrom t (i + 1) _)
  fill_peers_at-FillsFrom t i other sub = fill_peers_detail-FillsFrom other t i

  fillers-AllAdvance : AllAdvance (fillers ss inet_ntop get_sockaddr_in tokens source)
  unfolding fill_peers fill_failure_reason fill_warning fill_interval fill_min_interval
      fill_tracker_id fill_complete fill_incomplete
  fillers-AllAdvance =
      let ints = fill_int-FillsFrom ss {T = TrackerResponse} tokens source in
      let strs = fill_str-FillsFrom ss {T = TrackerResponse} tokens source in
      (
        λ t i. FillsFrom-mono (omega arith) (
            token_at-FillsFrom tokens (i + 1)
              (λ type sub l. fill_peers_at-FillsFrom t (i + 1) type sub)),
        (
          ints (λ t n. record t { interval = n }),
          (
            ints (λ t n. record t { complete = n }),
            (
              ints (λ t n. record t { incomplete = n }),
              (
                strs (λ t s. record t { tracker_id = s }),
                (
                  ints (λ t n. record t { min_interval = n }),
                  (
                    strs (λ t s. record t { failure_reason = s }),
                    (strs (λ t s. record t { warning = s }), tt),
                  ),
                ),
              ),
            ),
          ),
        ),
      )

  validate-FillsFrom :
      (t : TrackerResponse) (i : ℕ)
      → FillsFrom 0 (validate ss inet_ntop get_sockaddr_in tokens source t i)
  validate-FillsFrom t i = if-FillsFrom _ (ends _ i (omega arith)) (ends t i (omega arith))

  respond_to-FillsFrom :
      (type : TokenType) (sub : ss.SubString)
      → FillsFrom 0 (respond_to ss inet_ntop get_sockaddr_in tokens source type sub)
  respond_to-FillsFrom dict_start sub =
      then_do-FillsFrom
        (process-FillsFrom ss tokens source (fillers ss inet_ntop get_sockaddr_in tokens source)
          fillers-AllAdvance new_response)
        (λ t i l. validate-FillsFrom t i)
  respond_to-FillsFrom other sub = raises _

  pub respond-FillsFrom : FillsFrom 0 (respond ss inet_ntop get_sockaddr_in tokens source)
  unfolding respond
  respond-FillsFrom = token_at-FillsFrom tokens 0 (λ type sub l. respond_to-FillsFrom type sub)
