-- ===== src/TokenListProcessor/Values.antt =====
-- The tokens that the functions of TokenListProcessor look at.
use torrent_client.Base.{ℕ, zero, suc, ◌≡◌, ap, List, [], ◌∷◌, some, get_elem?}
use torrent_client.BeParser.{BeToken, TokenType}
use torrent_client.TokenListProcessor.{Filled, token_at}

module _ {D T : Type 0} where
  pub token_at-get_elem? :
      (tokens : List (BeToken D)) (i : ℕ) (token : BeToken D) (k : TokenType → D → Filled T)
      → get_elem? tokens i ≡ some token
      → token_at tokens i k ≡ k token.type token.substr
  token_at-get_elem? [] i token k h = cc
  token_at-get_elem? (t ∷ tokens) zero token k h =
      let e : t ≡ token = cc in ap (λ (u : BeToken D). k u.type u.substr) e
  token_at-get_elem? (t ∷ tokens) (suc i) token k h = token_at-get_elem? tokens i token k h
