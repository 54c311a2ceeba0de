-- ===== src/Files/Opening/Directories.antt =====
-- The directories that create_absolute_path of files.cpp makes.
use torrent_client.Base.{
  ℕ, zero, suc, ◌+◌, ◌<◌, ◌≡◌, refl, sym, ap, ◌∙◌, inl, inr, Bytes, List, [], ◌∷◌, ◌++◌,
  append_assoc, append-nil, Option, none, some, Option-cases, later, Bool, true, false, not, ◌||◌,
  ◌==◌, ltb, ltb→lt, ltb→ge, Bool-cases, if◌then◌else◌, take, drop, length, length-drop,
  take-append-drop, drop-drop, drop_all, arith,
}
use torrent_client.Platform.{Platform}
use torrent_client.Files.Opening.{
  FileSystem, Opened, opened, refused, undefined_behaviour, out_of_fuel, and_then, find_delimiter,
  ensure, create_loop, create_absolute_path,
}

-- What stands before each '/' of a path, and the path itself if it does not end in one. `before` is
-- the part that is passed, and `within` says that a name has begun.
abbrev pub directories : Bytes → Bool → Bytes → List Bytes
directories before within [] = if within then before ∷ [] else []
directories before within (c ∷ path) =
    let more = directories (before ++ c ∷ []) (not (c == b'/')) path in
    if c == b'/' then before ∷ more else more

abbrev is_empty : Bytes → Bool
is_empty [] = true
is_empty (c ∷ path) = false

some-ne : (n : ℕ) → some n ≡ none → ⊥
some-ne n h = cc

some-injective : (m n : ℕ) → some m ≡ some n → m ≡ n
some-injective m n h = cc

later-none : (r : Option ℕ) → later r ≡ none → r ≡ none
later-none none h = refl
later-none (some n) h = absurd (some-ne (suc n) h)

later-some : (r : Option ℕ) (n : ℕ) → later r ≡ some n → (m : ℕ) × ((r ≡ some m) × (n ≡ suc m))
later-some none n h = absurd (some-ne n (sym h))
later-some (some m) n h = (m, (refl, cc))

directories-named :
    (before : Bytes) (c : ℕ) (path : Bytes)
    → (if not (is_empty path) || true then ((before ++ c ∷ []) ++ path) ∷ [] else [])
      ≡ (before ++ c ∷ path) ∷ []
directories-named before c [] = ap (λ b. b ∷ []) (append-nil (before ++ c ∷ []))
directories-named before c (d ∷ path) = ap (λ b. b ∷ []) (append_assoc before (c ∷ []) (d ∷ path))

directories-none :
    (before : Bytes) (within : Bool) (path : Bytes)
    → find_delimiter path ≡ none
    → directories before within path
      ≡ (if not (is_empty path) || within then (before ++ path) ∷ [] else [])
directories-none before true [] h = rw (append-nil before) refl
directories-none before false [] h = refl
directories-none before within (c ∷ path) h = elim (Bool-cases (c == b'/')) [
  | inl e ↦ absurd (some-ne 0 (rw e at h))
  | inr e ↦ rw e (
      directories-none (before ++ c ∷ []) true path (later-none (find_delimiter path) (rw e at h))
      ∙ directories-named before c path)
]

directories-some :
    (before : Bytes) (within : Bool) (path : Bytes) (n : ℕ)
    → find_delimiter path ≡ some n
    → directories before within path
      ≡ (before ++ take n path)
        ∷ directories (before ++ take (suc n) path) false (drop (suc n) path)
directories-some before within [] n h = cc
directories-some before within (c ∷ path) n h = elim (Bool-cases (c == b'/')) [
  | inl e ↦
      let first : n ≡ 0 = some-injective n 0 (sym (rw e at h)) in
      rw (e, first, append-nil before) refl
  | inr e ↦
      let (m, (f, g)) = later-some (find_delimiter path) n (rw e at h) in
      rw (e, g)
        (directories-some (before ++ c ∷ []) true path m f
          ∙ rw
              (
                append_assoc before (c ∷ []) (take m path),
                append_assoc before (c ∷ []) (take (suc m) path),
              )
              refl)
]

take_nil : {A : Type 0} (n : ℕ) → take {A = A} n [] ≡ []
take_nil zero = refl
take_nil (suc n) = refl

take-more :
    {A : Type 0} (m n k : ℕ) (xs : List A) → m + n ≡ k → take m xs ++ take n (drop m xs) ≡ take k xs
take-more zero n k xs e = ap (λ j. take j xs) (omega arith)
take-more (suc m) n k [] e = take_nil n ∙ sym (take_nil k)
take-more (suc m) n zero (x ∷ xs) e = absurd (omega arith)
take-more (suc m) n (suc k) (x ∷ xs) e = ap (◌∷◌ x) (take-more m n k xs (omega arith))

is_empty-length : (text : Bytes) → 0 < length text → is_empty text ≡ false
is_empty-length [] h = absurd (omega arith)
is_empty-length (c ∷ text) h = refl

module _ {S A B : Type 0} where
  and_then-cong :
      (r : Opened S A) (k k' : A → S → Opened S B)
      → ((a : A) (s : S) → k a s ≡ k' a s)
      → and_then r k ≡ and_then r k'
  and_then-cong (opened a s) k k' h = h a s
  and_then-cong (refused e s) k k' h = refl
  and_then-cong undefined_behaviour k k' h = refl
  and_then-cong out_of_fuel k k' h = refl

and_then-opened : {S : Type 0} (r : Opened S Unit) → r ≡ and_then r opened
and_then-opened (opened a s) = refl
and_then-opened (refused e s) = refl
and_then-opened undefined_behaviour = refl
and_then-opened out_of_fuel = refl

module _ (P : Platform) (fs : FileSystem P.Fd) where
  -- One directory behind the other
  abbrev pub ensure_all : List Bytes → fs.State → Opened fs.State Unit
  ensure_all [] s = opened tt s
  ensure_all (path ∷ paths) s = and_then (ensure P fs path s) (λ made. ensure_all paths)

  create_loop-ensure_all :
      (fuel : ℕ) (path : Bytes) (offset : ℕ) (s : fs.State)
      → 0 < fuel
      → length path < fuel + offset
      → create_loop P fs fuel path offset s
        ≡ ensure_all (directories (take offset path) false (drop offset path)) s
  unfolding create_loop
  create_loop-ensure_all zero path offset s z h = absurd (omega arith)
  create_loop-ensure_all (suc fuel) path offset s z h =
      elim (Bool-cases (ltb offset (length path))) [
        | inr l ↦ rw (l, drop_all offset path (ltb→ge _ _ l)) refl
        | inl l ↦ rw l (elim (Option-cases (find_delimiter (drop offset path))) [
          | inl f ↦
              rw (f, directories-none (take offset path) false (drop offset path) f)
                (rw
                  (
                    is_empty-length (drop offset path)
                        (let more = ltb→lt _ _ l in omega (arith, length-drop offset path)),
                    take-append-drop offset path,
                  )
                  (and_then-opened (ensure P fs path s)))
          | inr (n, f) ↦
              rw (f, directories-some (take offset path) false (drop offset path) n f)
                (rw
                  (
                    take-more offset n (offset + n) path refl,
                    take-more offset (suc n) (offset + n + 1) path (omega arith),
                    drop-drop (suc n) offset path,
                    (let next : offset + suc n ≡ offset + n + 1 = omega arith in next),
                  )
                  (and_then-cong (ensure P fs (take (offset + n) path) s) _ _ (λ made u.
                    create_loop-ensure_all fuel path (offset + n + 1) u
                      (let more = ltb→lt _ _ l in omega arith) (omega arith))))
        ])
      ]

  -- create_absolute_path tests or makes, in order and up to the first that is something else,
  -- exactly what stands before each / of the path and, if the path does not end in one, the path
  -- itself.
  pub create_absolute_path-ensure_all :
      (path : Bytes) (s : fs.State)
      → create_absolute_path P fs path s ≡ ensure_all (directories [] false path) s
  unfolding create_absolute_path
  create_absolute_path-ensure_all path s =
      create_loop-ensure_all (length path + 1) path 0 s (omega arith) (omega arith)
