-- ===== src/TrackerConnection/Header.antt =====
-- The end of the header in on_read of init_http_request.cpp, for a header of whole lines.
use torrent_client.Base.{
  ℕ, ◌+◌, ◌<◌, ◌≡◌, ◌≢◌, refl, sym, ap, subst, ◌∙◌, Bytes, codes, c_str, find_part, later, List, [],
  ◌∷◌, ◌++◌, append_assoc, some, length, length-append, ne→==, arith,
}
use torrent_client.TrackerConnection.{header_end}

-- A line of a header: not empty, and without the bytes 0 and 13.
abbrev pub IsPlain : Bytes → Type 0
IsPlain [] = Unit {0}
IsPlain (c ∷ cs) = (c ≢ 0) × ((c ≢ 13) × IsPlain cs)

abbrev pub AreLines : List Bytes → Type 0
AreLines [] = Unit {0}
AreLines (l ∷ ls) = (0 < length l) × (IsPlain l × AreLines ls)

-- The lines with their ends, and the empty line.
abbrev pub http_header : List Bytes → Bytes
http_header [] = 13 ∷ 10 ∷ []
http_header (l ∷ ls) = l ++ (13 ∷ 10 ∷ http_header ls)

c_str-line : (l rest : Bytes) → IsPlain l → c_str (l ++ rest) ≡ l ++ c_str rest
c_str-line [] rest h = refl
c_str-line (c ∷ cs) rest (z, (r, h)) = rw (ne→== c 0 z, c_str-line cs rest h) refl

c_str-header :
    (ls : List Bytes) (rest : Bytes)
    → AreLines ls
    → c_str (http_header ls ++ rest) ≡ http_header ls ++ c_str rest
c_str-header [] rest h = refl
c_str-header (l ∷ ls) rest (n, (p, h)) =
    rw
      (
        append_assoc l (13 ∷ 10 ∷ http_header ls) rest,
        c_str-line l (13 ∷ 10 ∷ (http_header ls ++ rest)) p,
        c_str-header ls rest h,
        append_assoc l (13 ∷ 10 ∷ http_header ls) (c_str rest),
      )
      refl

find_part-line :
    (l rest : Bytes) (n : ℕ)
    → IsPlain l
    → find_part (codes "\r\n\r\n") rest ≡ some n
    → find_part (codes "\r\n\r\n") (l ++ rest) ≡ some (length l + n)
find_part-line [] rest n h e = e ∙ ap some (omega arith)
find_part-line (c ∷ cs) rest n (z, (r, h)) e =
    rw (ne→== 13 c (λ x. r (sym x)), find_part-line cs rest n h e) (ap some (omega arith))

-- A line after the end of another.
find_part-next :
    (c : ℕ) (text : Bytes) (n : ℕ)
    → c ≢ 13
    → find_part (codes "\r\n\r\n") (c ∷ text) ≡ some n
    → find_part (codes "\r\n\r\n") (13 ∷ 10 ∷ c ∷ text) ≡ some (2 + n)
find_part-next c text n r e =
    let other = ne→== 13 c (λ x. r (sym x)) in
    rw other (ap (λ o. later (later o)) (rw other at e) ∙ ap some (omega arith))

find_part-header :
    (ls : List Bytes) (rest : Bytes)
    → AreLines ls
    → (n : ℕ) × ((find_part (codes "\r\n\r\n") (13 ∷ 10 ∷ (http_header ls ++ rest)) ≡ some n)
        × (n + 2 ≡ length (http_header ls)))
find_part-header [] rest h = (0, (refl, refl))
find_part-header ([] ∷ ls) rest (l, h) = absurd (omega arith)
find_part-header ((c ∷ cs) ∷ ls) rest (l, (p, h)) =
    let (n, (e, m)) = find_part-header ls rest h in
    let found = find_part-line (c ∷ cs) (13 ∷ 10 ∷ (http_header ls ++ rest)) n p e in
    (
      2 + (length (c ∷ cs) + n),
      (
        find_part-next c ((cs ++ (13 ∷ 10 ∷ http_header ls)) ++ rest) (length (c ∷ cs) + n) p.1.0 (
            subst (λ t. find_part (codes "\r\n\r\n") t ≡ some (length (c ∷ cs) + n))
              (sym (append_assoc (c ∷ cs) (13 ∷ 10 ∷ http_header ls) rest)) found),
        omega (arith, m, length-append cs (13 ∷ 10 ∷ http_header ls)),
      ),
    )

-- Behind the lines of a header, of which there is one at least, and the empty line behind them is
-- where header_end ends the header, whatever follows.
pub header_end-header :
    (l : Bytes) (ls : List Bytes) (body : Bytes)
    → AreLines (l ∷ ls)
    → header_end (http_header (l ∷ ls) ++ body) ≡ some (length (http_header (l ∷ ls)))
unfolding header_end
header_end-header l ls body (k, (p, h)) =
    let (n, (e, m)) = find_part-header ls (c_str body) h in
    let line : find_part (codes "\r\n\r\n") (c_str (http_header (l ∷ ls) ++ body))
        ≡ some (length l + n) =
      subst (λ t. find_part (codes "\r\n\r\n") t ≡ some (length l + n))
        (sym (
          c_str-header (l ∷ ls) body (k, (p, h))
          ∙ append_assoc l (13 ∷ 10 ∷ http_header ls) (c_str body)))
        (find_part-line l (13 ∷ 10 ∷ (http_header ls ++ c_str body)) n p e) in
    rw (line, header_end) (ap some (omega (arith, m, length-append l (13 ∷ 10 ∷ http_header ls))))
