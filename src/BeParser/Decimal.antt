-- ===== src/BeParser/Decimal.antt =====
-- strtol of bedecoder/be_parser.cpp on decimal numbers.
use torrent_client.Base.{
  ℕ, zero, suc, ◌+◌, ◌/◌, ◌%◌, ◌^◌, ◌<◌, ◌≡◌, refl, ap, ◌∙◌, inl, inr, Bytes, decimal, [], ◌∷◌,
  ◌++◌, append_assoc, true, false, ◌||◌, ltb, ltb→lt, ◌==◌, Bool-cases, get_or, length,
  length-append, arith,
}
use native.Mathlib.Nat.{div-add-mod}
use torrent_client.Base.Decimal.{to_string}
use torrent_client.BeParser.{
  is_digit, is_space, count_digits, strtol_length, digits_value, strtol_value,
}

abbrev pub AreDigits : Bytes → Type 0
AreDigits [] = Unit {0}
AreDigits (c ∷ cs) = (is_digit c ≡ true) × AreDigits cs

AreDigits-append : (xs ys : Bytes) → AreDigits xs → AreDigits ys → AreDigits (xs ++ ys)
AreDigits-append [] ys h g = g
AreDigits-append (x ∷ xs) ys h g = (h.0, AreDigits-append xs ys h.1 g)

is_digit-add : (n : ℕ) → n < 10 → is_digit (b'0' + n) ≡ true
is_digit-add n h = ground arith

pub AreDigits-decimal : (fuel n : ℕ) → AreDigits (decimal fuel n)
AreDigits-decimal zero n = tt
AreDigits-decimal (suc fuel) n = elim (Bool-cases (ltb n 10)) [
  | inl l ↦ rw l (is_digit-add n (ltb→lt _ _ l), tt)
  | inr l ↦ rw l (
      AreDigits-append (decimal fuel (n / 10)) ((b'0' + n % 10) ∷ [])
        (AreDigits-decimal fuel (n / 10)) (is_digit-add (n % 10) (omega arith), tt))
]

pub decimal-length : (fuel n : ℕ) → 0 < length (decimal (suc fuel) n)
decimal-length fuel n = elim (Bool-cases (ltb n 10)) [
  | inl l ↦ rw l (omega arith)
  | inr l ↦ rw l (omega (arith, length-append (decimal fuel (n / 10)) ((b'0' + n % 10) ∷ [])))
]

count_digits-append :
    (xs rest : Bytes) (c : ℕ)
    → AreDigits xs
    → is_digit c ≡ false
    → count_digits (xs ++ c ∷ rest) ≡ length xs
count_digits-append [] rest c h e = rw e refl
count_digits-append (x ∷ xs) rest c h e = rw h.0 (ap suc (count_digits-append xs rest c h.1 e))

pub digits_value-decimal :
    (fuel n : ℕ) (rest : Bytes)
    → n < 10 ^ fuel
    → digits_value 0 (decimal fuel n ++ rest) ≡ digits_value n rest
digits_value-decimal zero n rest h = ap (λ k. digits_value k rest) (omega arith)
digits_value-decimal (suc fuel) n rest h = elim (Bool-cases (ltb n 10)) [
  | inl l ↦ rw (l, is_digit-add n (ltb→lt _ _ l)) (ap (λ k. digits_value k rest) (omega arith))
  | inr l ↦
      rw (l, append_assoc (decimal fuel (n / 10)) ((b'0' + n % 10) ∷ []) rest)
        (digits_value-decimal fuel (n / 10) ((b'0' + n % 10) ∷ rest) (omega arith)
          ∙ rw (is_digit-add (n % 10) (omega arith))
              (ap (λ k. digits_value k rest) (omega (arith, div-add-mod n 10))))
]

strtol_length-digits :
    (xs rest : Bytes) (c : ℕ)
    → 0 < length xs
    → AreDigits xs
    → is_digit c ≡ false
    → strtol_length (xs ++ c ∷ rest) ≡ length xs
unfolding strtol_length
strtol_length-digits [] rest c z h e = absurd (omega arith)
strtol_length-digits (x ∷ xs) rest c z h e =
    let spaces : is_space x ≡ false = let d = h.0 in ground arith in
    let sign : ((x == b'+') || (x == b'-')) ≡ false = let d = h.0 in ground arith in
    let some_digit : (suc (length xs) == 0) ≡ false = ground arith in
    rw (spaces, sign, h.0, count_digits-append xs rest c h.1 e, some_digit) (omega arith)

pub strtol_length-to_string :
    (n c : ℕ) (rest : Bytes)
    → is_digit c ≡ false
    → strtol_length (to_string n ++ c ∷ rest) ≡ length (to_string n)
unfolding to_string
strtol_length-to_string n c rest e =
    strtol_length-digits (decimal 20 n) rest c (decimal-length 19 n) (AreDigits-decimal 20 n) e

pub strtol_value-to_string :
    (n c : ℕ) (rest : Bytes)
    → is_digit c ≡ false
    → n < 2 ^ 63
    → strtol_value (to_string n ++ c ∷ rest) ≡ n
unfolding strtol_value to_string
strtol_value-to_string n c rest e h =
    rw (digits_value-decimal 20 n (c ∷ rest) (omega arith), e) (omega arith)

-- A number begins with a digit.
pub to_string-digit : (n : ℕ) (rest : Bytes) → is_digit (get_or (to_string n ++ rest) 0 0) ≡ true
unfolding to_string
to_string-digit n rest = first_digit (decimal 20 n) (decimal-length 19 n) (AreDigits-decimal 20 n)
  where
    first_digit :
        (xs : Bytes) → 0 < length xs → AreDigits xs → is_digit (get_or (xs ++ rest) 0 0) ≡ true
    first_digit [] z h = absurd (omega arith)
    first_digit (x ∷ xs) z h = h.0
