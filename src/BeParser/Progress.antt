-- ===== src/BeParser/Progress.antt =====
-- How far each step of the parser gets in the text, and the fuel that it needs.
use torrent_client.Base.{
  ℕ, zero, suc, ◌+◌, ◌^◌, ◌≤◌, ◌<◌, ◌≡◌, refl, sym, ap, subst, inl, inr, List, [], ◌∷◌, Bool, true,
  false, ◌&&◌, not, ltb, ltb→lt, lt→ltb, ltb→ge, ◌==◌, ==→ne, Bool-cases, if◌then◌else◌, drop,
  length, length-drop, arith,
}
use torrent_client.BeParser.{
  BeToken, Parsed, done, failed, out_of_fuel, is_digit, count_digits, count_spaces, count_sign,
  strtol_length, strtol_value, put_before, and_then, process_integer, process_string, close_struct,
  process_struct, parse_value, parse_part, parse_items, parse_all, parse, byte_at,
}

count_digits-length : (bytes : List ℕ) → count_digits bytes ≤ length bytes
count_digits-length [] = omega arith
count_digits-length (c ∷ cs) = ground (arith, count_digits-length cs)

strtol_length-length : (bytes : List ℕ) → strtol_length bytes ≤ length bytes
unfolding strtol_length
strtol_length-length bytes =
    let before = count_spaces bytes + count_sign (drop (count_spaces bytes) bytes) in
    elim (Bool-cases (count_digits (drop before bytes) == 0)) [
      | inl t ↦ rw t (omega arith)
      | inr t ↦ rw t (
          omega
            (arith, count_digits-length (drop before bytes), length-drop before bytes, ==→ne _ _ t))
    ]

strtol_value-bound : (bytes : List ℕ) → strtol_value bytes < 2 ^ 63
unfolding strtol_value
strtol_value-bound bytes = omega arith

-- Not out of fuel, and with tokens only at an offset from `low` on.
abbrev pub EndsFrom : {D : Type 0} → ℕ → Parsed D → Type 0
EndsFrom low (done tokens offset) = low ≤ offset
EndsFrom low (failed e) = Unit {0}
EndsFrom low out_of_fuel = ⊥

and_left : (a b : Bool) → (a && b) ≡ true → a ≡ true
and_left true b h = refl
and_left false b h = h

module _ {D : Type 0} (set : ℕ → ℕ → D) (source : List ℕ) where
  pub parse_all-step :
      (fuel o : ℕ)
      → ltb o (length source) ≡ true
      → parse_all set source (suc fuel) o
        ≡ and_then set source
            (parse_part set source (parse_items set source (length source + 1)) o)
            (parse_all set source fuel)
  unfolding parse_all
  parse_all-step fuel o t =
      ap
        (λ b.
          if b
          then and_then set source
              (parse_part set source (parse_items set source (length source + 1)) o)
              (parse_all set source fuel)
          else done [] o)
        t

module _ {D : Type 0} (set : ℕ → ℕ → D) (source : List ℕ) (bound : length source < 2 ^ 63) where
  EndsFrom-mono : (low low' : ℕ) (r : Parsed D) → low' ≤ low → EndsFrom low r → EndsFrom low' r
  EndsFrom-mono low low' (done ts o) h e = omega arith
  EndsFrom-mono low low' (failed x) h e = tt
  EndsFrom-mono low low' out_of_fuel h e = e

  put_before-EndsFrom :
      (low : ℕ) (ts : List (BeToken D)) (r : Parsed D)
      → EndsFrom low r
      → EndsFrom low (put_before set source ts r)
  put_before-EndsFrom low ts (done us o) e = e
  put_before-EndsFrom low ts (failed x) e = tt
  put_before-EndsFrom low ts out_of_fuel e = e

  and_then-EndsFrom :
      (low low' : ℕ) (r : Parsed D) (k : ℕ → Parsed D)
      → EndsFrom low r
      → ((o : ℕ) → low ≤ o → EndsFrom low' (k o))
      → EndsFrom low' (and_then set source r k)
  and_then-EndsFrom low low' (done ts o) k e h = put_before-EndsFrom low' ts (k o) (h o e)
  and_then-EndsFrom low low' (failed x) k e h = tt
  and_then-EndsFrom low low' out_of_fuel k e h = absurd e

  process_integer-EndsFrom : (o : ℕ) → EndsFrom (suc o) (process_integer set source o)
  unfolding process_integer
  process_integer-EndsFrom o =
      elim (Bool-cases (byte_at set source (o + 1 + strtol_length (drop (o + 1) source)) == b'e')) [
        | inl t ↦ rw t (omega arith)
        | inr t ↦ rw t tt
      ]

  process_string-EndsFrom :
      (o : ℕ) → o < length source → EndsFrom (suc o) (process_string set source o)
  unfolding process_string
  process_string-EndsFrom o l =
      elim (Bool-cases (byte_at set source (o + strtol_length (drop o source)) == b':')) [
        | inl t ↦ rw t (
            omega (
              arith,
              strtol_length-length (drop o source),
              length-drop o source,
              strtol_value-bound (drop o source),
            ))
        | inr t ↦ rw t tt
      ]

  close_struct-EndsFrom :
      (b : Bool) (o : ℕ) (r : Parsed D)
      → EndsFrom (suc o) r
      → EndsFrom (suc o) (close_struct set source b o r)
  close_struct-EndsFrom b o (done ts p) e = omega arith
  close_struct-EndsFrom b o (failed x) e = tt
  close_struct-EndsFrom b o out_of_fuel e = e

  process_struct-EndsFrom :
      (loop : ℕ → Parsed D) (o : ℕ) (b : Bool)
      → EndsFrom (suc o) (loop (o + 1))
      → EndsFrom (suc o) (process_struct set source loop o b)
  unfolding process_struct
  process_struct-EndsFrom loop o b h = close_struct-EndsFrom b o (loop (o + 1)) h

  parse_value-EndsFrom :
      (loop : ℕ → Parsed D) (o : ℕ)
      → o < length source
      → EndsFrom (suc o) (loop (o + 1))
      → EndsFrom (suc o) (parse_value set source loop o)
  unfolding parse_value
  parse_value-EndsFrom loop o l h = elim (Bool-cases (byte_at set source o == b'i')) [
    | inl t ↦ rw t (process_integer-EndsFrom o)
    | inr t ↦ rw t (elim (Bool-cases (is_digit (byte_at set source o))) [
      | inl t ↦ rw t (process_string-EndsFrom o l)
      | inr t ↦ rw t (elim (Bool-cases (byte_at set source o == b'l')) [
        | inl t ↦ rw t (process_struct-EndsFrom loop o true h)
        | inr t ↦ rw t (elim (Bool-cases (byte_at set source o == b'd')) [
          | inl t ↦ rw t (process_struct-EndsFrom loop o false h)
          | inr t ↦ rw t tt
        ])
      ])
    ])
  ]

  parse_part-EndsFrom :
      (loop : ℕ → Parsed D) (o : ℕ)
      → o < length source
      → EndsFrom (suc o) (loop (o + 1))
      → EndsFrom (suc o) (parse_part set source loop o)
  unfolding parse_part
  parse_part-EndsFrom loop o l h = rw (lt→ltb o (length source) l) (parse_value-EndsFrom loop o l h)

  parse_items-EndsFrom :
      (fuel o : ℕ)
      → 0 < fuel
      → length source < fuel + o
      → EndsFrom o (parse_items set source fuel o)
  unfolding parse_items
  parse_items-EndsFrom zero o z f = absurd (omega arith)
  parse_items-EndsFrom (suc fuel) o z f =
      elim (Bool-cases (ltb o (length source) && not (byte_at set source o == b'e'))) [
        | inr t ↦ rw t (omega arith)
        | inl t ↦
            let l = ltb→lt o (length source) (and_left _ _ t) in
            rw t (
              and_then-EndsFrom (suc o) o (parse_part set source (parse_items set source fuel) o)
                (parse_items set source fuel)
                (parse_part-EndsFrom (parse_items set source fuel) o l (
                  EndsFrom-mono (o + 1) (suc o) _ (omega arith)
                    (parse_items-EndsFrom fuel (o + 1) (omega arith) (omega arith))))
                (λ p h.
                  EndsFrom-mono p o _ (omega arith)
                    (parse_items-EndsFrom fuel p (omega arith) (omega arith))))
      ]

  parse_all-EndsFrom :
      (fuel o : ℕ)
      → 0 < fuel
      → length source < fuel + o
      → EndsFrom (length source) (parse_all set source fuel o)
  unfolding parse_all
  parse_all-EndsFrom zero o z f = absurd (omega arith)
  parse_all-EndsFrom (suc fuel) o z f = elim (Bool-cases (ltb o (length source))) [
    | inr t ↦ rw t (ltb→ge _ _ t)
    | inl t ↦
        let l = ltb→lt o (length source) t in
        let items = parse_items set source (length source + 1) in
        subst (EndsFrom (length source)) (sym (parse_all-step set source fuel o t)) (
          and_then-EndsFrom (suc o) (length source) (parse_part set source items o)
            (parse_all set source fuel)
            (parse_part-EndsFrom items o l (
              EndsFrom-mono (o + 1) (suc o) _ (omega arith)
                (parse_items-EndsFrom (length source + 1) (o + 1) (omega arith) (omega arith))))
            (λ p h. parse_all-EndsFrom fuel p (omega arith) (omega arith)))
  ]

  -- For a text of less than 2^63 bytes the parser ends: with an exception, or with tokens and an
  -- offset at the end of the text or behind it.
  pub parse-EndsFrom : EndsFrom (length source) (parse set source)
  unfolding parse
  parse-EndsFrom = parse_all-EndsFrom (length source + 1) 0 (omega arith) (omega arith)
