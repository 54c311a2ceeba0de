-- ===== src/Base/Texts.antt =====
-- Texts as lists of bytes: literals and comparison.
use Prim.Native.Nat.{ℕ, suc}
use Prim.Native.Char.{code}
use Prim.Native.String.{String}
use mathlib.Core.Path.{◌≡◌, refl}
use mathlib.Core.Logic.{◌↔◌}
use mathlib.Core.Bool.{Bool, true, false, ◌&&◌}
use mathlib.Core.Option.{Option, none, some}
use mathlib.Core.List.{List, [], ◌∷◌}
use native.Mathlib.Omega.{arith}
use torrent_client.Base.Tests.{◌==◌, if◌then◌else◌}

abbrev pub Bytes : Type 0
Bytes = List ℕ

-- The code points of a literal; each one of the source is ASCII.
abbrev pub codes : String → Bytes
codes String.[] = []
codes (String.◌∷◌ c s) = code c ∷ codes s

-- c_str of a string, as the system reads it
abbrev pub c_str : Bytes → Bytes
c_str [] = []
c_str (c ∷ text) = let rest = c_str text in if c == 0 then [] else c ∷ rest

-- operator == of std::string
abbrev pub equal : Bytes → Bytes → Bool
equal [] [] = true
equal (x ∷ xs) [] = false
equal [] (y ∷ ys) = false
equal (x ∷ xs) (y ∷ ys) = (x == y) && equal xs ys

-- A text that begins with a part, and the first place of a part in a text.
abbrev pub starts_with : Bytes → Bytes → Bool
starts_with [] text = true
starts_with (p ∷ part) [] = false
starts_with (p ∷ part) (c ∷ text) = (p == c) && starts_with part text

abbrev pub later : Option ℕ → Option ℕ
later none = none
later (some n) = some (suc n)

abbrev pub find_part : Bytes → Bytes → Option ℕ
find_part part [] = if starts_with part [] then some 0 else none
find_part part (c ∷ text) =
    let rest = find_part part text in if starts_with part (c ∷ text) then some 0 else later rest

pub equal_iff : (xs ys : Bytes) → (equal xs ys ≡ true) ↔ (xs ≡ ys)
equal_iff [] [] = (λ h. refl, λ h. refl)
equal_iff (x ∷ xs) [] = (λ h. cc, λ h. cc)
equal_iff [] (y ∷ ys) = (λ h. cc, λ h. cc)
equal_iff (x ∷ xs) (y ∷ ys) =
    (λ h. ground (arith, (equal_iff xs ys).0), λ h. ground (arith, (equal_iff xs ys).1))

pub equal_refl : (xs : Bytes) → equal xs xs ≡ true
equal_refl xs = (equal_iff xs xs).1 refl
