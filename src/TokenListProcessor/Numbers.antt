-- ===== src/TokenListProcessor/Numbers.antt =====
-- std::stoll, as token_list_processor.hpp and torrent_file.cpp call it, on decimal numbers.
use torrent_client.Base.{
  ℕ, suc, ◌+◌, ◌^◌, ◌<◌, ◌≡◌, refl, sym, ap, ◌∙◌, Bytes, decimal, [], ◌∷◌, append-nil, false, ◌||◌,
  ◌==◌, lt→ltb, length, arith,
}
use torrent_client.Base.Decimal.{to_string}
use torrent_client.BeParser.{is_space, count_digits, strtol_length, digits_value}
use torrent_client.BeParser.Decimal.{
  AreDigits, AreDigits-decimal, decimal-length, digits_value-decimal,
}
use torrent_client.TokenListProcessor.{number, signed_number, stoll}

count_digits-all : (xs : Bytes) → AreDigits xs → count_digits xs ≡ length xs
count_digits-all [] h = refl
count_digits-all (x ∷ xs) h = rw h.0 (ap suc (count_digits-all xs h.1))

stoll-digits :
    (xs : Bytes) → 0 < length xs → AreDigits xs → stoll xs ≡ signed_number false (digits_value 0 xs)
unfolding stoll strtol_length
stoll-digits [] z h = absurd (omega arith)
stoll-digits (x ∷ xs) z h =
    let spaces : is_space x ≡ false = let d = h.0 in ground arith in
    let sign : ((x == b'+') || (x == b'-')) ≡ false = let d = h.0 in ground arith in
    let minus : (x == b'-') ≡ false = let d = h.0 in ground arith in
    let some_digit : (suc (length xs) == 0) ≡ false = ground arith in
    let some_bytes : (0 + suc (length xs) == 0) ≡ false = ground arith in
    rw (spaces, sign, h.0, count_digits-all xs h.1, some_digit, some_bytes, minus) refl

pub stoll-to_string : (n : ℕ) → n < 2 ^ 63 → stoll (to_string n) ≡ number n
unfolding to_string
stoll-to_string n h =
    stoll-digits (decimal 20 n) (decimal-length 19 n) (AreDigits-decimal 20 n)
    ∙ ap (λ bytes. signed_number false (digits_value 0 bytes)) (sym (append-nil (decimal 20 n)))
    ∙ ap (signed_number false) (digits_value-decimal 20 n [] (omega arith))
    ∙ rw (lt→ltb n (2 ^ 63) h) refl
