-- ===== src/BeParser/Balance.antt =====
-- Sequences of tokens with starts and ends in pairs, and the tokens of each step of the parser.
use torrent_client.Base.{
  ℕ, zero, suc, ◌+◌, ◌≡◌, ◌⊎◌, refl, sym, subst, inl, inr, List, [], ◌∷◌, ◌++◌, append_assoc, Bool,
  true, false, ◌&&◌, not, ltb, ◌==◌, Bool-cases, drop, length,
}
use torrent_client.BeParser.{
  BeToken, list_start, list_end, dict_start, dict_end, int, str, Parsed, done, failed, out_of_fuel,
  is_digit, strtol_length, put_before, and_then, process_integer, process_string, close_struct,
  process_struct, parse_value, parse_part, parse_items, parse_all, parse, byte_at,
}
use torrent_client.BeParser.Progress.{parse_all-step}

-- A sequence of values: integers, strings, and lists and dictionaries of such sequences.
pub data IsBalanced {D : Type 0} : List (BeToken D) → Type 0 where
  none : IsBalanced []
  value :
      (t : BeToken D) {ts : List (BeToken D)}
      → (t.type ≡ int) ⊎ (t.type ≡ str)
      → IsBalanced ts
      → IsBalanced (t ∷ ts)
  list :
      (s e : BeToken D) {inner rest : List (BeToken D)}
      → s.type ≡ list_start
      → e.type ≡ list_end
      → IsBalanced inner
      → IsBalanced rest
      → IsBalanced (s ∷ (inner ++ e ∷ rest))
  dict :
      (s e : BeToken D) {inner rest : List (BeToken D)}
      → s.type ≡ dict_start
      → e.type ≡ dict_end
      → IsBalanced inner
      → IsBalanced rest
      → IsBalanced (s ∷ (inner ++ e ∷ rest))

module _ {D : Type 0} where
  IsBalanced-append :
      {xs ys : List (BeToken D)} → IsBalanced xs → IsBalanced ys → IsBalanced (xs ++ ys)
  IsBalanced-append none b = b
  IsBalanced-append (value t h a) b = value t h (IsBalanced-append a b)
  IsBalanced-append {ys = ys} (list s e {inner = inner} {rest = rest} h k a c) b =
      subst (λ ts. IsBalanced (s ∷ ts)) (sym (append_assoc inner (e ∷ rest) ys))
        (list s e h k a (IsBalanced-append c b))
  IsBalanced-append {ys = ys} (dict s e {inner = inner} {rest = rest} h k a c) b =
      subst (λ ts. IsBalanced (s ∷ ts)) (sym (append_assoc inner (e ∷ rest) ys))
        (dict s e h k a (IsBalanced-append c b))

  abbrev pub IsBalancedResult : Parsed D → Type 0
  IsBalancedResult (done ts o) = IsBalanced ts
  IsBalancedResult (failed e) = Unit {0}
  IsBalancedResult out_of_fuel = Unit {0}

module _ {D : Type 0} (set : ℕ → ℕ → D) (source : List ℕ) where
  put_before-IsBalanced :
      (ts : List (BeToken D)) (r : Parsed D)
      → IsBalanced ts
      → IsBalancedResult r
      → IsBalancedResult (put_before set source ts r)
  put_before-IsBalanced ts (done us o) b r = IsBalanced-append b r
  put_before-IsBalanced ts (failed e) b r = tt
  put_before-IsBalanced ts out_of_fuel b r = tt

  and_then-IsBalanced :
      (r : Parsed D) (k : ℕ → Parsed D)
      → IsBalancedResult r
      → ((o : ℕ) → IsBalancedResult (k o))
      → IsBalancedResult (and_then set source r k)
  and_then-IsBalanced (done ts o) k b h = put_before-IsBalanced ts (k o) b (h o)
  and_then-IsBalanced (failed e) k b h = tt
  and_then-IsBalanced out_of_fuel k b h = tt

  process_integer-IsBalanced : (o : ℕ) → IsBalancedResult (process_integer set source o)
  unfolding process_integer
  process_integer-IsBalanced o =
      elim (Bool-cases (byte_at set source (o + 1 + strtol_length (drop (o + 1) source)) == b'e')) [
        | inl t ↦ rw t (value _ (inl refl) none)
        | inr t ↦ rw t tt
      ]

  process_string-IsBalanced : (o : ℕ) → IsBalancedResult (process_string set source o)
  unfolding process_string
  process_string-IsBalanced o =
      elim (Bool-cases (byte_at set source (o + strtol_length (drop o source)) == b':')) [
        | inl t ↦ rw t (value _ (inr refl) none)
        | inr t ↦ rw t tt
      ]

  close_struct-IsBalanced :
      (b : Bool) (o : ℕ) (r : Parsed D)
      → IsBalancedResult r
      → IsBalancedResult (close_struct set source b o r)
  close_struct-IsBalanced true o (done ts p) h = list _ _ refl refl h none
  close_struct-IsBalanced false o (done ts p) h = dict _ _ refl refl h none
  close_struct-IsBalanced b o (failed e) h = tt
  close_struct-IsBalanced b o out_of_fuel h = tt

  process_struct-IsBalanced :
      (loop : ℕ → Parsed D) (o : ℕ) (b : Bool)
      → IsBalancedResult (loop (o + 1))
      → IsBalancedResult (process_struct set source loop o b)
  unfolding process_struct
  process_struct-IsBalanced loop o b h = close_struct-IsBalanced b o (loop (o + 1)) h

  parse_value-IsBalanced :
      (loop : ℕ → Parsed D) (o : ℕ)
      → IsBalancedResult (loop (o + 1))
      → IsBalancedResult (parse_value set source loop o)
  unfolding parse_value
  parse_value-IsBalanced loop o h = elim (Bool-cases (byte_at set source o == b'i')) [
    | inl t ↦ rw t (process_integer-IsBalanced o)
    | inr t ↦ rw t (elim (Bool-cases (is_digit (byte_at set source o))) [
      | inl t ↦ rw t (process_string-IsBalanced o)
      | inr t ↦ rw t (elim (Bool-cases (byte_at set source o == b'l')) [
        | inl t ↦ rw t (process_struct-IsBalanced loop o true h)
        | inr t ↦ rw t (elim (Bool-cases (byte_at set source o == b'd')) [
          | inl t ↦ rw t (process_struct-IsBalanced loop o false h)
          | inr t ↦ rw t tt
        ])
      ])
    ])
  ]

  parse_part-IsBalanced :
      (loop : ℕ → Parsed D) (o : ℕ)
      → IsBalancedResult (loop (o + 1))
      → IsBalancedResult (parse_part set source loop o)
  unfolding parse_part
  parse_part-IsBalanced loop o h = elim (Bool-cases (ltb o (length source))) [
    | inl t ↦ rw t (parse_value-IsBalanced loop o h)
    | inr t ↦ rw t none
  ]

  parse_items-IsBalanced : (fuel o : ℕ) → IsBalancedResult (parse_items set source fuel o)
  unfolding parse_items
  parse_items-IsBalanced zero o = tt
  parse_items-IsBalanced (suc fuel) o =
      elim (Bool-cases (ltb o (length source) && not (byte_at set source o == b'e'))) [
        | inr t ↦ rw t none
        | inl t ↦ rw t (
            and_then-IsBalanced (parse_part set source (parse_items set source fuel) o)
              (parse_items set source fuel)
              (parse_part-IsBalanced (parse_items set source fuel) o
                (parse_items-IsBalanced fuel (o + 1)))
              (parse_items-IsBalanced fuel))
      ]

  parse_all-IsBalanced : (fuel o : ℕ) → IsBalancedResult (parse_all set source fuel o)
  unfolding parse_all
  parse_all-IsBalanced zero o = tt
  parse_all-IsBalanced (suc fuel) o = elim (Bool-cases (ltb o (length source))) [
    | inr t ↦ rw t none
    | inl t ↦
        let items = parse_items set source (length source + 1) in
        subst IsBalancedResult (sym (parse_all-step set source fuel o t)) (
          and_then-IsBalanced (parse_part set source items o) (parse_all set source fuel)
            (parse_part-IsBalanced items o (parse_items-IsBalanced (length source + 1) (o + 1)))
            (parse_all-IsBalanced fuel))
  ]

  -- The tokens that the parser returns are whole values: each start of a list or of a dictionary has
  -- its own end of the same kind behind it, with whole values between them, and outside of them are
  -- integers and strings.
  pub parse-IsBalanced : IsBalancedResult (parse set source)
  unfolding parse
  parse-IsBalanced = parse_all-IsBalanced (length source + 1) 0
