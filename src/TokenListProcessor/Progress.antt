-- ===== src/TokenListProcessor/Progress.antt =====
-- How far each step of TokenListProcessor gets in the tokens, and the fuel that its loop needs.
use torrent_client.Base.{
  ℕ, zero, suc, ◌+◌, ◌≤◌, ◌<◌, ◌≢◌, inl, inr, Bytes, equal, List, [], ◌∷◌, Bool, true, false, ltb,
  ltb→lt, ltb→ge, Bool-cases, if◌then◌else◌, length, arith,
}
use torrent_client.BeParser.{BeToken, TokenType, int, str}
use torrent_client.SubStrings.{SubStrings}
use torrent_client.TokenListProcessor.{
  Error, Filled, filled, raised, undefined_behaviour, unfinished, then_do, Number, number,
  no_number, with_number, stoll, token_at, Fillers, find_filler, set_int, fill_int, set_str,
  fill_str, filler_at, call_filler, process_token, process_loop, process,
}

-- Not out of fuel, and where an object is filled, the next token is `low` or one behind it.
pub data FillsFrom {T : Type 0} (low : ℕ) : Filled T → Type 0 where
  ends : (t : T) (i : ℕ) → low ≤ i → FillsFrom low (filled t i)
  raises : (e : Error) → FillsFrom low (raised e)
  breaks : FillsFrom low undefined_behaviour

module _ {T : Type 0} where
  pub FillsFrom-mono :
      {low low' : ℕ} {r : Filled T} → low' ≤ low → FillsFrom low r → FillsFrom low' r
  FillsFrom-mono h (ends t i l) = ends t i (omega arith)
  FillsFrom-mono h (raises e) = raises e
  FillsFrom-mono h breaks = breaks

  pub then_do-FillsFrom :
      {low low' : ℕ} {r : Filled T} {k : T → ℕ → Filled T}
      → FillsFrom low r
      → ((t : T) (i : ℕ) → low ≤ i → FillsFrom low' (k t i))
      → FillsFrom low' (then_do r k)
  then_do-FillsFrom (ends t i l) h = h t i l
  then_do-FillsFrom (raises e) h = raises e
  then_do-FillsFrom breaks h = breaks

  pub FillsFrom-ne : {low : ℕ} {r : Filled T} → FillsFrom low r → r ≢ unfinished
  FillsFrom-ne (ends t i l) = λ h. cc
  FillsFrom-ne (raises e) = λ h. cc
  FillsFrom-ne breaks = λ h. cc

  pub with_number-FillsFrom :
      {low : ℕ} (n : Number) {k : ℕ → Filled T}
      → ((v : ℕ) → FillsFrom low (k v))
      → FillsFrom low (with_number n k)
  with_number-FillsFrom (number v) h = h v
  with_number-FillsFrom (no_number e) h = raises e

  pub token_at-FillsFrom :
      {D : Type 0} {low : ℕ} (tokens : List (BeToken D)) (i : ℕ) {k : TokenType → D → Filled T}
      → ((type : TokenType) (sub : D) → i < length tokens → FillsFrom low (k type sub))
      → FillsFrom low (token_at tokens i k)
  token_at-FillsFrom [] i h = breaks
  token_at-FillsFrom (t ∷ tokens) zero h = h t.type t.substr (omega arith)
  token_at-FillsFrom (t ∷ tokens) (suc i) h =
      token_at-FillsFrom tokens i (λ type sub l. h type sub (omega arith))

  -- Each filler goes on to a later token, or ends in an error.
  abbrev pub AllAdvance : Fillers T → Type 0
  AllAdvance [] = Unit {0}
  AllAdvance ((name, filler) ∷ rest) =
      ((t : T) (i : ℕ) → FillsFrom (suc i) (filler t i)) × AllAdvance rest

module _ {T : Type 0} {low : ℕ} where
  pub if-FillsFrom :
      (b : Bool) {x y : Filled T}
      → FillsFrom low x
      → FillsFrom low y
      → FillsFrom low (if b then x else y)
  if-FillsFrom true h g = h
  if-FillsFrom false h g = g

module _ (ss : SubStrings) {T : Type 0} (tokens : List (BeToken ss.SubString))
    (source : Bytes) where
  set_int-FillsFrom :
      (dest : T → ℕ → T) (t : T) (i : ℕ) (type : TokenType) (sub : ss.SubString)
      → FillsFrom (i + 1) (set_int ss tokens source dest t i type sub)
  set_int-FillsFrom dest t i int sub =
      with_number-FillsFrom (stoll (ss.str sub source)) (λ v. ends _ _ (omega arith))
  set_int-FillsFrom dest t i other sub = ends t (i + 1) (omega arith)

  pub fill_int-FillsFrom :
      (dest : T → ℕ → T) (t : T) (i : ℕ) → FillsFrom (suc i) (fill_int ss tokens source dest t i)
  unfolding fill_int
  fill_int-FillsFrom dest t i =
      FillsFrom-mono (omega arith) (
        token_at-FillsFrom tokens (i + 1) (λ type sub l. set_int-FillsFrom dest t (i + 1) type sub))

  pub set_str-FillsFrom :
      (dest : T → Bytes → T) (t : T) (i : ℕ) (type : TokenType) (sub : ss.SubString)
      → FillsFrom (i + 1) (set_str ss tokens source dest t i type sub)
  set_str-FillsFrom dest t i str sub = ends _ _ (omega arith)
  set_str-FillsFrom dest t i other sub = ends t (i + 1) (omega arith)

  pub fill_str-FillsFrom :
      (dest : T → Bytes → T) (t : T) (i : ℕ)
      → FillsFrom (suc i) (fill_str ss tokens source dest t i)
  unfolding fill_str
  fill_str-FillsFrom dest t i =
      FillsFrom-mono (omega arith) (
        token_at-FillsFrom tokens (i + 1) (λ type sub l. set_str-FillsFrom dest t (i + 1) type sub))

  call_found-FillsFrom :
      (fillers : Fillers T) (key : Bytes)
      → AllAdvance fillers
      → (t : T) (i : ℕ)
      → FillsFrom (suc i) (call_filler ss tokens source (find_filler key fillers) t i)
  call_found-FillsFrom [] key a t i = ends t (i + 1) (omega arith)
  call_found-FillsFrom ((name, filler) ∷ rest) key a t i = elim (Bool-cases (equal name key)) [
    | inl h ↦ rw h (a.0 t i)
    | inr h ↦ rw h (call_found-FillsFrom rest key a.1 t i)
  ]

  call_filler-FillsFrom :
      (fillers : Fillers T) (a : AllAdvance fillers) (t : T) (i : ℕ) (type : TokenType)
      (sub : ss.SubString)
      → FillsFrom
          (suc i)
          (call_filler ss tokens source (filler_at ss tokens source fillers type sub) t i)
  call_filler-FillsFrom fillers a t i int sub =
      call_found-FillsFrom fillers (ss.str sub source) a t i
  call_filler-FillsFrom fillers a t i str sub =
      call_found-FillsFrom fillers (ss.str sub source) a t i
  call_filler-FillsFrom fillers a t i other sub = ends t (i + 1) (omega arith)

  pub process_token-FillsFrom :
      (fillers : Fillers T)
      → AllAdvance fillers
      → (t : T) (i : ℕ) → FillsFrom (suc i) (process_token ss tokens source fillers t i)
  unfolding process_token
  process_token-FillsFrom fillers a t i =
      token_at-FillsFrom tokens i (λ type sub l. call_filler-FillsFrom fillers a t i type sub)

  process_loop-FillsFrom :
      (fillers : Fillers T) (fuel : ℕ) (t : T) (i : ℕ)
      → AllAdvance fillers
      → length tokens < fuel + i
      → 0 < fuel
      → FillsFrom (length tokens) (process_loop ss tokens source fillers fuel t i)
  unfolding process_loop
  process_loop-FillsFrom fillers zero t i a h z = absurd (omega arith)
  process_loop-FillsFrom fillers (suc fuel) t i a h z = elim (Bool-cases (ltb i (length tokens))) [
    | inr l ↦ rw l (ends t i (ltb→ge _ _ l))
    | inl l ↦ rw l (
        then_do-FillsFrom (process_token-FillsFrom fillers a t i) (λ u j g.
          process_loop-FillsFrom fillers fuel u j a (omega arith)
            (let l' = ltb→lt _ _ l in omega arith)))
  ]

  -- Where every filler goes on to a later token or ends in an error, the loop of process ends: with
  -- an exception, in a read of a token that is not there, or behind the last token.
  pub process-FillsFrom :
      (fillers : Fillers T)
      → AllAdvance fillers
      → (t : T) → FillsFrom (length tokens) (process ss tokens source fillers t)
  unfolding process
  process-FillsFrom [] a t = raises _
  process-FillsFrom (f ∷ fillers) a t =
      process_loop-FillsFrom (f ∷ fillers) (length tokens + 1) t 0 a (omega arith) (omega arith)
