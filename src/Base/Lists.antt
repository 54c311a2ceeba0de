-- ===== src/Base/Lists.antt =====
-- Lists measured and indexed by native numbers, under the library's names.
use Prim.Native.Nat.{ℕ, zero, suc, ◌+◌, ◌-◌, ◌≤◌, ◌<◌, min}
use mathlib.Core.Path.{◌≡◌, refl, sym, ap, ◌∙◌}
use mathlib.Core.List.{List, [], ◌∷◌, ◌++◌}
use mathlib.Core.Option.{Option, none, some}
use native.Mathlib.Omega.{arith}

module _ {ℓ} {A : Type ℓ} where
  abbrev pub length : List A → ℕ
  length [] = 0
  length (x ∷ xs) = suc (length xs)

  abbrev pub get_elem? : List A → ℕ → Option A
  get_elem? [] i = none
  get_elem? (x ∷ xs) zero = some x
  get_elem? (x ∷ xs) (suc i) = get_elem? xs i

  abbrev pub get_or : List A → ℕ → A → A
  get_or [] i d = d
  get_or (x ∷ xs) zero d = x
  get_or (x ∷ xs) (suc i) d = get_or xs i d

  abbrev pub take : ℕ → List A → List A
  take zero xs = []
  take (suc n) [] = []
  take (suc n) (x ∷ xs) = x ∷ take n xs

  abbrev pub drop : ℕ → List A → List A
  drop zero xs = xs
  drop (suc n) [] = []
  drop (suc n) (x ∷ xs) = drop n xs

  pub drop_all : (n : ℕ) (xs : List A) → length xs ≤ n → drop n xs ≡ []
  drop_all zero [] h = refl
  drop_all zero (x ∷ xs) h = absurd (omega arith)
  drop_all (suc n) [] h = refl
  drop_all (suc n) (x ∷ xs) h = drop_all n xs (omega arith)

  pub length-append : (xs ys : List A) → length (xs ++ ys) ≡ length xs + length ys
  length-append [] ys = omega arith
  length-append (x ∷ xs) ys = omega (arith, length-append xs ys)

  pub length-drop : (n : ℕ) (xs : List A) → length (drop n xs) ≡ length xs - n
  length-drop zero xs = omega arith
  length-drop (suc n) [] = omega arith
  length-drop (suc n) (x ∷ xs) = omega (arith, length-drop n xs)

  pub length-take : (n : ℕ) (xs : List A) → length (take n xs) ≡ min n (length xs)
  length-take zero xs = omega arith
  length-take (suc n) [] = omega arith
  length-take (suc n) (x ∷ xs) = omega (arith, length-take n xs)

  pub take-append-drop : (n : ℕ) (xs : List A) → take n xs ++ drop n xs ≡ xs
  take-append-drop zero xs = refl
  take-append-drop (suc n) [] = refl
  take-append-drop (suc n) (x ∷ xs) = rw (take-append-drop n xs)

  -- A part that lies inside the first of two lists.
  pub take-append : (n : ℕ) (xs ys : List A) → n ≤ length xs → take n (xs ++ ys) ≡ take n xs
  take-append zero xs ys h = refl
  take-append (suc n) [] ys h = absurd (omega arith)
  take-append (suc n) (x ∷ xs) ys h = ap (◌∷◌ x) (take-append n xs ys (omega arith))

  pub drop-append : (n : ℕ) (xs ys : List A) → n ≤ length xs → drop n (xs ++ ys) ≡ drop n xs ++ ys
  drop-append zero xs ys h = refl
  drop-append (suc n) [] ys h = absurd (omega arith)
  drop-append (suc n) (x ∷ xs) ys h = drop-append n xs ys (omega arith)

  pub take-length-append : (xs ys : List A) → take (length xs) (xs ++ ys) ≡ xs
  take-length-append [] ys = refl
  take-length-append (x ∷ xs) ys = ap (◌∷◌ x) (take-length-append xs ys)

  pub drop-length-append : (xs ys : List A) → drop (length xs) (xs ++ ys) ≡ ys
  drop-length-append [] ys = refl
  drop-length-append (x ∷ xs) ys = drop-length-append xs ys

  -- What stands behind the first of two lists.
  pub get_elem?-behind :
      (xs ys : List A) (i k : ℕ) → i ≡ length xs + k → get_elem? (xs ++ ys) i ≡ get_elem? ys k
  get_elem?-behind [] ys i k e = ap (get_elem? ys) (omega arith)
  get_elem?-behind (x ∷ xs) ys zero k e = absurd (omega arith)
  get_elem?-behind (x ∷ xs) ys (suc i) k e = get_elem?-behind xs ys i k (omega arith)

  pub drop-behind : (xs ys : List A) (i k : ℕ) → i ≡ length xs + k → drop i (xs ++ ys) ≡ drop k ys
  drop-behind [] ys i k e = ap (λ n. drop n ys) (omega arith)
  drop-behind (x ∷ xs) ys zero k e = absurd (omega arith)
  drop-behind (x ∷ xs) ys (suc i) k e = drop-behind xs ys i k (omega arith)

  pub get_or-append :
      (xs ys : List A) (i : ℕ) (d : A) → i < length xs → get_or (xs ++ ys) i d ≡ get_or xs i d
  get_or-append [] ys i d h = elim h [ ]
  get_or-append (x ∷ xs) ys zero d h = refl
  get_or-append (x ∷ xs) ys (suc i) d h = get_or-append xs ys i d (omega arith)

  -- memcpy of a list into a list, from an index on; what does not fit is not written.
  abbrev pub write_at : ℕ → List A → List A → List A
  write_at i [] memory = memory
  write_at i (x ∷ xs) [] = []
  write_at zero (x ∷ xs) (y ∷ memory) = x ∷ write_at zero xs memory
  write_at (suc i) (x ∷ xs) (y ∷ memory) = y ∷ write_at i (x ∷ xs) memory

  drop_nil : (n : ℕ) → drop n [] ≡ []
  drop_nil zero = refl
  drop_nil (suc n) = refl

  drop_cons : (n k : ℕ) (x : A) (xs : List A) → k ≡ suc n → drop k (x ∷ xs) ≡ drop n xs
  drop_cons n zero x xs e = absurd (omega arith)
  drop_cons n (suc k) x xs e = ap (λ j. drop j xs) (omega arith)

  pub drop-drop : (m n : ℕ) (xs : List A) → drop m (drop n xs) ≡ drop (n + m) xs
  drop-drop m zero xs = ap (λ k. drop k xs) (omega arith)
  drop-drop zero (suc n) [] = sym (drop_nil (suc n + 0))
  drop-drop (suc m) (suc n) [] = sym (drop_nil (suc n + suc m))
  drop-drop m (suc n) (x ∷ xs) =
      drop-drop m n xs ∙ sym (drop_cons (n + m) (suc n + m) x xs (omega arith))

  write_front :
      (xs ys rest : List A) → length xs ≡ length ys → write_at 0 xs (ys ++ rest) ≡ xs ++ rest
  write_front [] [] rest e = refl
  write_front [] (y ∷ ys) rest e = absurd (omega arith)
  write_front (x ∷ xs) [] rest e = absurd (omega arith)
  write_front (x ∷ xs) (y ∷ ys) rest e = ap (◌∷◌ x) (write_front xs ys rest (omega arith))

  -- Writing over a part of the same length.
  pub write_over :
      (i : ℕ) (front xs ys rest : List A)
      → i ≡ length front
      → length xs ≡ length ys
      → write_at i xs (front ++ (ys ++ rest)) ≡ front ++ (xs ++ rest)
  write_over i [] xs ys rest e l = rw e (write_front xs ys rest l)
  write_over zero (a ∷ front) xs ys rest e l = absurd (omega arith)
  write_over (suc i) (a ∷ front) [] [] rest e l = refl
  write_over (suc i) (a ∷ front) [] (y ∷ ys) rest e l = absurd (omega arith)
  write_over (suc i) (a ∷ front) (x ∷ xs) ys rest e l =
      ap (◌∷◌ a) (write_over i front (x ∷ xs) ys rest (omega arith) l)
