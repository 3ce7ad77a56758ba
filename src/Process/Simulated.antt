-- ===== src/Process/Simulated.antt =====
-- A kernel whose calls succeed, which gives a new descriptor the lowest free number.
use linux_veda_4sensor_tcp_c.Prelude.{
  ℕ, ◌≡◌, refl, arith, ℤ, pos, negsuc, is_neg, false, Option, none, some, List, [], ◌∷◌,
}
use linux_veda_4sensor_tcp_c.Process.{
  socket, open_file, readlink, inet_pton, dlopen, dlsym, History, Kernel,
}
use linux_veda_4sensor_tcp_c.Process.Files.{Object, meaning, IsFresh}

-- The first of the numbers that is not in use.
abbrev pub number_or : ℕ → ℤ → Option Object → ℤ
number_or n rest none = pos n
number_or n rest (some _) = rest

unfoldable pub lowest : (ℤ → Option Object) → List ℕ → History → ℤ
lowest start [] h = negsuc 0
lowest start (n ∷ ns) h = number_or n (lowest start ns h) (meaning start h (pos n))

pub lowest-fresh :
    (start : ℤ → Option Object) (ns : List ℕ) (h : History)
    → is_neg (lowest start ns h) ≡ false
    → meaning start h (lowest start ns h) ≡ none
unfolding lowest
lowest-fresh start [] h found = absurd (ground (found, arith))
lowest-fresh start (n ∷ ns) h found =
    go (meaning start h (pos n)) refl (lowest-fresh start ns h) found
  where
    go :
        (o : Option Object)
        → meaning start h (pos n) ≡ o
        → (is_neg (lowest start ns h) ≡ false → meaning start h (lowest start ns h) ≡ none)
        → is_neg (number_or n (lowest start ns h) o) ≡ false
        → meaning start h (number_or n (lowest start ns h) o) ≡ none
    go none free rest found = free
    go (some _) used rest found = rest found

abbrev pub numbers : List ℕ
numbers = 0 ∷ 1 ∷ 2 ∷ 3 ∷ 4 ∷ 5 ∷ []

abbrev pub simulated : (ℤ → Option Object) → Kernel
simulated start h socket = lowest start numbers h
simulated start h (open_file path) = lowest start numbers h
simulated start h (inet_pton text) = pos 1
simulated start h readlink = pos 20
simulated start h (dlopen path) = pos 4096
simulated start h (dlsym handle name) = pos 8192
simulated start h _ = pos 0

pub simulated-IsFresh : (start : ℤ → Option Object) → IsFresh start (simulated start)
simulated-IsFresh start = record {
  of_socket = λ h found. lowest-fresh start numbers h found;
  of_open = λ h path found. lowest-fresh start numbers h found;
}
