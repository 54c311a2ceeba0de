-- ===== src/Examples/Texts.antt =====
-- The parser of bedecoder/be_parser.cpp on texts.
use torrent_client.Base.Decimal.{to_string}
use torrent_client.Base.{ℕ, length, ◌<◌, ◌^◌, ◌≡◌, refl, List, [], ◌∷◌, true, false, arith}
use torrent_client.BeParser.{done, int, str, list_start, list_end, dict_start, dict_end, parse}
use torrent_client.BeParser.Progress.{EndsFrom, parse-EndsFrom}
use torrent_client.BeParser.Encoding.{Value, number, text, struct, nil, cons, encode, tokens}
use torrent_client.BeParser.Encoding.RoundTrip.{parse-encode}
use torrent_client.BeParser.Balance.{IsBalancedResult, parse-IsBalanced}

-- A token with the two arguments of SubString::set.
abbrev pair : ℕ → ℕ → ℕ × ℕ
pair a b = (a, b)

-- d2:abi-7ee
abbrev dictionary : List ℕ
dictionary = b'd' ∷ b'2' ∷ b':' ∷ b'a' ∷ b'b' ∷ b'i' ∷ b'-' ∷ b'7' ∷ b'e' ∷ b'e' ∷ []

dictionary_parsed :
    parse pair dictionary
    ≡ done
        (record { type = dict_start; substr = (0, 0) }
          ∷ record { type = str; substr = (3, 5) }
          ∷ record { type = int; substr = (6, 8) }
          ∷ record { type = dict_end; substr = (9, 0) }
          ∷ [])
        10
unfolding parse
dictionary_parsed = refl

-- A list that does not end is taken for one that does.
open_list_parsed :
    parse pair (b'l' ∷ [])
    ≡ done
        (record { type = list_start; substr = (0, 0) }
          ∷ record { type = list_end; substr = (1, 0) }
          ∷ [])
        2
unfolding parse
open_list_parsed = refl

parse-EndsFrom_example : EndsFrom 10 (parse pair dictionary)
parse-EndsFrom_example = parse-EndsFrom pair dictionary (omega arith)

parse-IsBalanced_example : IsBalancedResult (parse pair dictionary)
parse-IsBalanced_example = parse-IsBalanced pair dictionary

-- d1:ali42e0:ee
abbrev nested : Value
nested =
    struct false
      (cons (text (b'a' ∷ [])) (cons (struct true (cons (number 42) (cons (text []) nil))) nil))

bound : length (encode nested) < 2 ^ 63
unfolding to_string
bound = omega arith

parse-encode_example :
    parse pair (encode nested) ≡ done (tokens pair 0 nested) (length (encode nested))
parse-encode_example = parse-encode pair nested bound
