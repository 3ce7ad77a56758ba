-- ===== src/Server/TextLaws.antt =====
-- The buffers of server/main.c are large enough, or the program says so.
use linux_veda_4sensor_tcp_c.Prelude.{
  ℕ, zero, suc, ◌-◌, ◌≤◌, ◌≡◌, refl, ◌∙◌, ap, inl, inr, ◌==◌, leb, if◌then◌else◌, true, false,
  Bool-cases, none, some, List, [], ◌∷◌, ◌++◌, All, length, take, length-append, arith,
}
use linux_veda_4sensor_tcp_c.Server.Text.{
  snprintf, log_text, log_line, before_slash, base_dir, library_text, library_path,
}

take_all : {A : Type 0} (n : ℕ) (xs : List A) → length xs ≤ n → take n xs ≡ xs
take_all zero [] h = refl
take_all zero (x ∷ xs) h = absurd (omega arith)
take_all (suc n) [] h = refl
take_all (suc n) (x ∷ xs) h = ap (◌∷◌ x) (take_all n xs (omega arith))

take-take : {A : Type 0} (n : ℕ) (xs : List A) → take n (take n xs) ≡ take n xs
take-take zero xs = refl
take-take (suc n) [] = refl
take-take (suc n) (x ∷ xs) = ap (◌∷◌ x) (take-take n xs)

length-take_le : {A : Type 0} (n : ℕ) (xs : List A) → length (take n xs) ≤ n
length-take_le zero xs = omega arith
length-take_le (suc n) [] = omega arith
length-take_le (suc n) (x ∷ xs) = omega (arith, length-take_le n xs)

-- The clamp on the result of `snprintf`.
clamp_lem :
    (text : List ℕ)
    → take (if leb 256 (length text) then 256 - 1 else length text) (snprintf 256 text)
      ≡ take 255 text
clamp_lem text = elim (Bool-cases (leb 256 (length text))) [
  | inl long ↦ rw long (take-take 255 text)
  | inr short ↦
      let whole = take_all 255 text (ground (arith, short)) in
      rw (short, whole) (take_all (length text) text (omega arith))
]

-- `write` is given the first 255 bytes of the line, never more than the buffer has: a line that
-- fits is written whole, and a longer one is cut off.
pub log_line_lem :
    (timebuf msg : List ℕ)
    → (log_line timebuf msg ≡ take 255 (log_text timebuf msg))
      × (length (log_line timebuf msg) ≤ 255)
      × (length (log_text timebuf msg) ≤ 255 → log_line timebuf msg ≡ log_text timebuf msg)
unfolding log_line
log_line_lem timebuf msg =
    let text = log_text timebuf msg in
    let cut = clamp_lem text in
    (cut, rw cut (length-take_le 255 text), λ fits. cut ∙ take_all 255 text fits)

abbrev pub IsNoSlash : ℕ → Type 0
IsNoSlash b = (b == b'/') ≡ false

no_slash : (file : List ℕ) → All IsNoSlash file → before_slash file ≡ none
unfolding before_slash
no_slash [] a = refl
no_slash (b ∷ bs) a = rw (no_slash bs a.1, a.0) refl

before_slash_lem :
    (dir file : List ℕ) → All IsNoSlash file → before_slash (dir ++ b'/' ∷ file) ≡ some dir
unfolding before_slash
before_slash_lem [] file a = rw (no_slash file a) refl
before_slash_lem (b ∷ bs) file a = rw (before_slash_lem bs file a) refl

base_dir_lem :
    (dir file : List ℕ)
    → All IsNoSlash file
    → length (dir ++ b'/' ∷ file) ≤ 511
    → base_dir (dir ++ b'/' ∷ file) ≡ dir
unfolding base_dir
base_dir_lem dir file a fits =
    let whole = take_all 511 (dir ++ b'/' ∷ file) fits in
    let front = before_slash_lem dir file a in
    let small : length dir ≤ 511 = omega (arith, length-append dir (b'/' ∷ file)) in
    rw (base_dir, whole, front) (take_all 511 dir small)

path_cases :
    (text : List ℕ)
    → (if leb 512 (length text) then none else some (snprintf 512 text))
      ≡ (if leb (length text) 511 then some text else none)
path_cases text = elim (Bool-cases (leb 512 (length text))) [
  | inl long ↦ let far : leb (length text) 511 ≡ false = ground (arith, long) in rw (long, far) refl
  | inr short ↦
      let near : leb (length text) 511 ≡ true = ground (arith, short) in
      rw (short, near) (ap some (take_all 511 text (ground (arith, short))))
]

-- The libraries are opened beside the program: for a program `file` in `dir`, at a path that
-- `readlink` does not cut off, `dlopen` is given "dir/lib/name.so" whole, or the process exits
-- because this has more than 511 bytes.
pub library_path-base_dir :
    (dir file name : List ℕ)
    → All IsNoSlash file
    → length (dir ++ b'/' ∷ file) ≤ 511
    → library_path (base_dir (dir ++ b'/' ∷ file)) name
      ≡ (if leb (length (library_text dir name)) 511 then some (library_text dir name) else none)
unfolding library_path
library_path-base_dir dir file name a fits =
    rw (base_dir_lem dir file a fits) (path_cases (library_text dir name))
