-- ===== src/Client/ConsoleLaws.antt =====
-- read_choice of client/main.c on a line with a number.
use linux_veda_4sensor_tcp_c.Prelude.{
  ℕ, zero, suc, ◌+◌, ◌*◌, ◌^◌, ◌≤◌, ◌<◌, ◌≡◌, refl, pos, List, [], ◌∷◌, length, All, arith,
}
use linux_veda_4sensor_tcp_c.Client.Console.{
  take_line, digits_value, signed_value, atoi, read_choice_from, Session, read_choice,
}

-- The number that decimal digits stand for.
abbrev pub decimal : List ℕ → ℕ
decimal [] = 0
decimal (d ∷ ds) = d * 10 ^ length ds + decimal ds

abbrev pub IsDigit : ℕ → Type 0
IsDigit d = d ≤ 9

-- The bytes of the digits, and then `tail`.
abbrev pub digits_then : List ℕ → List ℕ → List ℕ
digits_then [] tail = tail
digits_then (d ∷ ds) tail = (b'0' + d) ∷ digits_then ds tail

take_line-digits :
    (ds rest : List ℕ) (k : ℕ)
    → All IsDigit ds
    → length ds < k
    → take_line k (digits_then ds (b'\n' ∷ rest)) ≡ (digits_then ds (b'\n' ∷ []), rest)
unfolding take_line
take_line-digits ds rest zero a h = absurd (omega arith)
take_line-digits [] rest (suc k) a h = refl
take_line-digits (d ∷ ds) rest (suc k) a h =
    let more = take_line-digits ds rest k a.1 (omega arith) in ground (arith, more, a.0)

shift : (acc d k r : ℕ) → (acc * 10 + d) * k + r ≡ acc * (10 * k) + (d * k + r)
shift acc d k r = ground arith

digits_value-digits :
    (ds : List ℕ) (acc : ℕ)
    → All IsDigit ds
    → digits_value acc (digits_then ds (b'\n' ∷ [])) ≡ acc * 10 ^ length ds + decimal ds
unfolding digits_value
digits_value-digits [] acc a = ground arith
digits_value-digits (d ∷ ds) acc a =
    let more = digits_value-digits ds (acc * 10 + d) a.1 in
    let moved = shift acc d (10 ^ length ds) (decimal ds) in ground (arith, more, a.0, moved)

atoi-digits :
    (d : ℕ) (ds : List ℕ)
    → All IsDigit (d ∷ ds)
    → atoi (digits_then (d ∷ ds) (b'\n' ∷ [])) ≡ pos (decimal (d ∷ ds))
unfolding atoi signed_value
atoi-digits d ds a = let value = digits_value-digits (d ∷ ds) 0 a in ground (arith, value, a.0)

-- A line of 1 to 14 decimal digits is read as the number that they stand for, leading zeros
-- included, and exactly the line is taken from the input.
pub read_choice-digits :
    (d : ℕ) (ds rest : List ℕ) (s : Session)
    → All IsDigit (d ∷ ds)
    → length ds < 14
    → s.input ≡ digits_then (d ∷ ds) (b'\n' ∷ rest)
    → read_choice s ≡ (pos (decimal (d ∷ ds)), record s { input = rest })
unfolding read_choice read_choice_from
read_choice-digits d ds rest s a short e =
    rw (e, take_line-digits (d ∷ ds) rest 15 a (omega arith), atoi-digits d ds a) refl
