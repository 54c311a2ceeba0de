-- ===== src/Base/Decimal.antt =====
-- std::to_string of the unsigned numbers: at most twenty digits.
use Prim.Native.Nat.{ℕ, zero, suc, ◌+◌, ◌/◌, ◌%◌}
use mathlib.Core.List.{[], ◌∷◌, ◌++◌}
use torrent_client.Base.Tests.{ltb, if◌then◌else◌}
use torrent_client.Base.Texts.{Bytes}

abbrev pub decimal : ℕ → ℕ → Bytes
decimal zero n = []
decimal (suc fuel) n =
    let front = decimal fuel (n / 10) in
    if ltb n 10 then (b'0' + n) ∷ [] else front ++ (b'0' + n % 10) ∷ []

unfoldable pub to_string : ℕ → Bytes
to_string n = decimal 20 n
