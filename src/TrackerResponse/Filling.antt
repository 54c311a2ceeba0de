-- ===== src/TrackerResponse/Filling.antt =====
-- tracker_response.cpp: the constructor of TrackerResponse, and the functions that fill it.
use torrent_client.Base.{
  ℕ, ◌+◌, ◌/◌, Bytes, codes, List, [], ◌∷◌, ◌++◌, true, ◌&&◌, not, Option, none, some,
  if◌then◌else◌, drop,
}
use torrent_client.BeParser.{BeToken, TokenType, str, list_start, dict_start, dict_end}
use torrent_client.SubStrings.{SubStrings}
use torrent_client.TokenListProcessor.{
  Filled, filled, raised, undefined_behaviour, runtime_error, foreign, then_do, token_at, Filler,
  Fillers, fill_int, fill_str, process,
}
use torrent_client.TrackerResponse.{
  SockAddr, TrackerResponse, new_peer, new_response, resize, change_last, back, with_back, is_empty,
  set_peer, Compact, all_set, invalid_ip, too_short, compact_peers,
}

module _ (ss : SubStrings) (inet_ntop : Bytes → Option Bytes)
    (get_sockaddr_in : Bytes → ℕ → Option SockAddr) (tokens : List (BeToken ss.SubString))
    (source : Bytes) where
  abbrev pub store_peers : TrackerResponse → ℕ → Compact → Filled TrackerResponse
  store_peers t i (all_set peers) = filled (record t { peers = peers }) i
  store_peers t i invalid_ip = raised (runtime_error "invalid ip")
  store_peers t i too_short = undefined_behaviour

  -- fill_peers_compact, at its token
  unfoldable pub fill_peers_compact : ss.SubString → Filler TrackerResponse
  unfolding compact_peers
  fill_peers_compact sub t i =
      store_peers t (i + 1)
        (compact_peers inet_ntop (resize (ss.length sub / 6) t.peers) (drop (ss.start sub) source))

  abbrev pub with_saddr :
      Option SockAddr → (SockAddr → Filled TrackerResponse) → Filled TrackerResponse
  with_saddr none k = raised foreign
  with_saddr (some saddr) k = k saddr

  -- What a DICT_END does
  abbrev pub set_back_saddr :
      TrackerResponse → (TrackerResponse → Filled TrackerResponse) → Filled TrackerResponse
  set_back_saddr t k = with_back (back t.peers) (λ p.
      with_saddr (get_sockaddr_in p.ip p.port)
        (λ saddr. k (record t { peers = change_last (λ q. record q { saddr = saddr }) t.peers })))

  -- The switch of fill_peers_detail: `next` is the loop behind the token, and `value` what a key
  -- does with the token that follows it.
  abbrev pub detail_token :
      TokenType
      → TrackerResponse
      → ℕ
      → Filler TrackerResponse
      → Filled TrackerResponse
      → Filled TrackerResponse
  detail_token dict_start t i next value =
      next (record t { peers = t.peers ++ new_peer ∷ [] }) (i + 1)
  detail_token dict_end t i next value = set_back_saddr t (λ u. next u (i + 1))
  detail_token str t i next value = value
  detail_token other t i next value = next t (i + 1)

  -- The loop of fill_peers_detail over the tokens that are left
  unfoldable pub detail_loop : List (BeToken ss.SubString) → Filler TrackerResponse
  detail_loop [] t i = filled t i
  detail_loop (a ∷ []) t i = detail_token a.type t i filled undefined_behaviour
  detail_loop (a ∷ b ∷ rest) t i = detail_token a.type t i (detail_loop (b ∷ rest)) (
      set_peer (ss.str a.substr source) (ss.str b.substr source) t
        (λ u. detail_loop rest u (i + 2)))

  -- fill_peers_detail, at its token
  unfoldable pub fill_peers_detail : TokenType → Filler TrackerResponse
  unfolding detail_loop
  fill_peers_detail list_start t i = detail_loop (drop (i + 1) tokens) t (i + 1)
  fill_peers_detail other t i = raised (runtime_error "invalid betype. expected list_start")

  abbrev pub fill_peers_at : TrackerResponse → ℕ → TokenType → ss.SubString → Filled TrackerResponse
  fill_peers_at t i str sub = fill_peers_compact sub t i
  fill_peers_at t i other sub = fill_peers_detail other t i

  unfoldable pub fill_peers : Filler TrackerResponse
  unfolding fill_peers_compact fill_peers_detail
  fill_peers t i = token_at tokens (i + 1) (fill_peers_at t (i + 1))

  unfoldable pub fill_failure_reason : Filler TrackerResponse
  fill_failure_reason = fill_str ss tokens source (λ t s. record t { failure_reason = s })

  unfoldable pub fill_warning : Filler TrackerResponse
  fill_warning = fill_str ss tokens source (λ t s. record t { warning = s })

  unfoldable pub fill_interval : Filler TrackerResponse
  fill_interval = fill_int ss tokens source (λ t n. record t { interval = n })

  unfoldable pub fill_min_interval : Filler TrackerResponse
  fill_min_interval = fill_int ss tokens source (λ t n. record t { min_interval = n })

  unfoldable pub fill_tracker_id : Filler TrackerResponse
  fill_tracker_id = fill_str ss tokens source (λ t s. record t { tracker_id = s })

  unfoldable pub fill_complete : Filler TrackerResponse
  fill_complete = fill_int ss tokens source (λ t n. record t { complete = n })

  unfoldable pub fill_incomplete : Filler TrackerResponse
  fill_incomplete = fill_int ss tokens source (λ t n. record t { incomplete = n })

  -- m_fillers
  abbrev pub fillers : Fillers TrackerResponse
  fillers =
      (codes "peers", fill_peers)
      ∷ (codes "interval", fill_interval)
      ∷ (codes "complete", fill_complete)
      ∷ (codes "incomplete", fill_incomplete)
      ∷ (codes "tracker id", fill_tracker_id)
      ∷ (codes "min interval", fill_min_interval)
      ∷ (codes "failure reason", fill_failure_reason)
      ∷ (codes "warning message", fill_warning)
      ∷ []

  -- The end of the constructor
  abbrev pub validate : Filler TrackerResponse
  validate t i =
      if is_empty t.failure_reason && (is_empty t.warning && not (is_empty t.peers))
      then filled (record t { valid = true }) i
      else filled t i

  abbrev pub respond_to : TokenType → ss.SubString → Filled TrackerResponse
  respond_to dict_start sub = then_do (process ss tokens source fillers new_response) validate
  respond_to other sub = raised (runtime_error "invalid tracker respons. not a dict")

  -- The constructor
  unfoldable pub respond : Filled TrackerResponse
  respond = token_at tokens 0 respond_to
