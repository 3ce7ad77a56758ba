-- ===== src/Client/ZeroLaws.antt =====
-- What read_choice of client/main.c reads off an input that ends with lines 0.
use linux_veda_4sensor_tcp_c.Prelude.{
  ℕ, zero, suc, ◌≤◌, ◌<◌, ◌≡◌, refl, sym, ap, ◌∙◌, length-append, ◌⊎◌, inl, inr, pos, ◌==◌,
  Bool-cases, List, [], ◌∷◌, ◌++◌, length, arith,
}
use linux_veda_4sensor_tcp_c.Client.Console.{
  Session, take_line, read_choice_from, read_choice, atoi,
}
use linux_veda_4sensor_tcp_c.Client.FuelLaws.{read_choice_reads}

-- So many lines with the choice 0.
abbrev pub zeros : ℕ → List ℕ
zeros zero = []
zeros (suc k) = b'0' ∷ b'\n' ∷ zeros k

-- Anything, the end of a line, and three lines with the choice 0.
abbrev pub EndsInZeros : List ℕ → Type 0
EndsInZeros bs = (before : List ℕ) × (bs ≡ before ++ b'\n' ∷ zeros 3)

-- What is left of such an input, with `n` lines at least.
abbrev pub Has : ℕ → List ℕ → Type 0
Has n bs = EndsInZeros bs ⊎ ((k : ℕ) × (n ≤ k) × (bs ≡ zeros k))

take_line-EndsInZeros :
    (k : ℕ) (before : List ℕ)
    → let rest = (take_line k (before ++ b'\n' ∷ zeros 3)).1 in EndsInZeros rest ⊎ (rest ≡ zeros 3)
unfolding take_line
take_line-EndsInZeros zero before = inl (before, refl)
take_line-EndsInZeros (suc k) [] = inr refl
take_line-EndsInZeros (suc k) (b ∷ before) = elim (Bool-cases (b == b'\n')) [
  | inl end ↦ rw end (inl (before, refl))
  | inr on ↦ rw on (take_line-EndsInZeros k before)
]

-- Reading a choice takes a line 0, or leaves three of them.
read_choice_from-Has :
    (n : ℕ) (bs : List ℕ)
    → Has (suc n) bs
    → let r = read_choice_from bs in Has 3 r.1 ⊎ ((r.0 ≡ pos 0) × Has n r.1)
unfolding read_choice_from take_line atoi
read_choice_from-Has n bs (inl (before, e)) = rw e (go before)
  where
    three : (rest : List ℕ) → EndsInZeros rest ⊎ (rest ≡ zeros 3) → Has 3 rest
    three rest (inl a) = inl a
    three rest (inr a) = inr (3, omega arith, a)

    go :
        (before : List ℕ)
        → let r = read_choice_from (before ++ b'\n' ∷ zeros 3) in
          Has 3 r.1 ⊎ ((r.0 ≡ pos 0) × Has n r.1)
    go [] = inl (three _ (take_line-EndsInZeros 15 []))
    go (b ∷ before) = inl (three _ (take_line-EndsInZeros 15 (b ∷ before)))
read_choice_from-Has n bs (inr (zero, h, e)) = absurd (omega (h, arith))
read_choice_from-Has n bs (inr (suc k, h, e)) = rw e (inr (refl, inr (k, omega (h, arith), refl)))

pub read_choice-Has :
    (n : ℕ) (s : Session)
    → Has (suc n) s.input
    → let r = read_choice s in Has 3 r.1.input ⊎ ((r.0 ≡ pos 0) × Has n r.1.input)
unfolding read_choice
read_choice-Has n s h = read_choice_from-Has n s.input h

pub fewer : (m n : ℕ) (bs : List ℕ) → m ≤ n → Has n bs → Has m bs
fewer m n bs le (inl a) = inl a
fewer m n bs le (inr (k, h, e)) = inr (k, omega (h, le, arith), e)

-- An input with a line in it is not at its end.
Has-cons : (n : ℕ) (bs : List ℕ) → Has (suc n) bs → bs ≡ [] → ⊥
Has-cons n bs (inl (before, e)) empty =
    absurd (omega (arith, ap length (sym empty ∙ e), length-append before (b'\n' ∷ zeros 3)))
Has-cons n bs (inr (zero, h, e)) empty = absurd (omega (h, arith))
Has-cons n bs (inr (suc k, h, e)) empty = absurd (omega (arith, ap length (sym empty ∙ e)))

pub read_choice-reads :
    (n : ℕ) (s : Session) → Has (suc n) s.input → length (read_choice s).1.input < length s.input
read_choice-reads n s h = elim (read_choice_reads s) [
  | inl end ↦ absurd (Has-cons n s.input h end)
  | inr less ↦ less
]
