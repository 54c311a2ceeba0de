-- ===== src/TokenListProcessor.antt =====
-- template class TokenListProcessor of token_list_processor.hpp: the loop that hands the tokens to
-- the functions that fill an object, and the two ways to fill a member from a value.
pub mod Progress
pub mod Values
pub mod Numbers
use Prim.Native.String.{String}
use torrent_client.Base.{
  ℕ, zero, suc, ◌+◌, ◌-◌, ◌^◌, Bytes, equal, List, [], ◌∷◌, Option, none, some, Bool, true, false,
  ◌||◌, ◌==◌, ltb, if◌then◌else◌, get_elem?, get_or, drop, length,
}
use torrent_client.BeParser.{
  BeToken, TokenType, int, str, list_start, list_end, dict_start, dict_end, count_spaces,
  count_sign, strtol_length, digits_value,
}
use torrent_client.SubStrings.{SubStrings}

-- What the constructors of the two classes throw.
pub data Error : Type 0 where
  runtime_error : String → Error
  invalid_argument out_of_range : Error
  -- from a function of another library
  foreign : Error

-- What filling an object does: the object with the number of the token that comes next, an
-- exception, a read of a token that is not there, or a loop out of its fuel. No object is left
-- where its constructor throws.
pub data Filled (T : Type 0) : Type 0 where
  filled : T → ℕ → Filled T
  raised : Error → Filled T
  undefined_behaviour : Filled T
  unfinished : Filled T

abbrev pub then_do : {T : Type 0} → Filled T → (T → ℕ → Filled T) → Filled T
then_do (filled t i) k = k t i
then_do (raised e) k = raised e
then_do undefined_behaviour k = undefined_behaviour
then_do unfinished k = unfinished

-- std::stoll with base 10, and the value as a uint64_t
pub data Number : Type 0 where
  number : ℕ → Number
  no_number : Error → Number

abbrev pub signed_number : Bool → ℕ → Number
signed_number true n =
    if ltb (2 ^ 63) n then no_number out_of_range else number (if n == 0 then 0 else 2 ^ 64 - n)
signed_number false n = if ltb n (2 ^ 63) then number n else no_number out_of_range

unfoldable pub stoll : Bytes → Number
unfolding strtol_length
stoll bytes =
    let unspaced = drop (count_spaces bytes) bytes in
    if strtol_length bytes == 0
    then no_number invalid_argument
    else signed_number (get_or unspaced 0 0 == b'-')
        (digits_value 0 (drop (count_sign unspaced) unspaced))

abbrev pub with_number : {T : Type 0} → Number → (ℕ → Filled T) → Filled T
with_number (number n) k = k n
with_number (no_number e) k = raised e

-- operator[] of the tokens
abbrev pub token_at : {D T : Type 0} → List (BeToken D) → ℕ → (TokenType → D → Filled T) → Filled T
token_at [] i k = undefined_behaviour
token_at (t ∷ tokens) zero k = k t.type t.substr
token_at (t ∷ tokens) (suc i) k = token_at tokens i k

abbrev pub Filler : Type 0 → Type 0
Filler T = T → ℕ → Filled T

-- m_fillers, and its find
abbrev pub Fillers : Type 0 → Type 0
Fillers T = List (Bytes × Filler T)

abbrev pub find_filler : {T : Type 0} → Bytes → Fillers T → Option (Filler T)
find_filler key [] = none
find_filler key ((name, filler) ∷ rest) =
    if equal name key then some filler else find_filler key rest

module _ (ss : SubStrings) {T : Type 0} (tokens : List (BeToken ss.SubString))
    (source : Bytes) where
  abbrev pub set_int : (T → ℕ → T) → T → ℕ → TokenType → ss.SubString → Filled T
  set_int dest t i int sub =
      with_number (stoll (ss.str sub source)) (λ n. filled (dest t n) (i + 1))
  set_int dest t i other sub = filled t (i + 1)

  -- fill_int, where `dest` assigns to the member
  unfoldable pub fill_int : (T → ℕ → T) → Filler T
  fill_int dest t i = token_at tokens (i + 1) (set_int dest t (i + 1))

  abbrev pub set_str : (T → Bytes → T) → T → ℕ → TokenType → ss.SubString → Filled T
  set_str dest t i str sub = filled (dest t (ss.str sub source)) (i + 1)
  set_str dest t i other sub = filled t (i + 1)

  -- fill_str, where `dest` assigns to the member
  unfoldable pub fill_str : (T → Bytes → T) → Filler T
  fill_str dest t i = token_at tokens (i + 1) (set_str dest t (i + 1))

  -- The filler that the loop calls at a token, if any.
  abbrev pub filler_at : Fillers T → TokenType → ss.SubString → Option (Filler T)
  filler_at fillers int sub = find_filler (ss.str sub source) fillers
  filler_at fillers str sub = find_filler (ss.str sub source) fillers
  filler_at fillers other sub = none

  abbrev pub call_filler : Option (Filler T) → Filler T
  call_filler none t i = filled t (i + 1)
  call_filler (some filler) t i = filler t i

  -- The body of the loop of process.
  unfoldable pub process_token : Fillers T → Filler T
  process_token fillers t i =
      token_at tokens i (λ type sub. call_filler (filler_at fillers type sub) t i)

  unfoldable pub process_loop : Fillers T → ℕ → Filler T
  unfolding process_token
  process_loop fillers zero t i = unfinished
  process_loop fillers (suc fuel) t i =
      if ltb i (length tokens)
      then then_do (process_token fillers t i) (process_loop fillers fuel)
      else filled t i

  -- process. The cast of the object to its class does not fail, and the message of the exception
  -- lacks the name of the class.
  unfoldable pub process : Fillers T → T → Filled T
  unfolding process_loop
  process [] t = raised (runtime_error "m_fillers is empty for class: ")
  process (f ∷ fillers) t = process_loop (f ∷ fillers) (length tokens + 1) t 0
