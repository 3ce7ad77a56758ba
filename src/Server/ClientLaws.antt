-- ===== src/Server/ClientLaws.antt =====
-- The client table of server/main.c and server/handler.c as a multiset of descriptors.
use linux_veda_4sensor_tcp_c.Prelude.{
  ℕ, suc, ◌≤◌, ◌<◌, ◌≡◌, ◌≢◌, refl, inl, inr, ℤ, pos, negsuc, ◌==ℤ◌, if◌then◌else◌, Bool-cases,
  Option, none, some, Option-cases, List, [], ◌∷◌, length, arith,
}
use linux_veda_4sensor_tcp_c.Server.Clients.{put_fd, clear_fd}

-- The descriptors in use.
abbrev pub registered : List ℤ → List ℤ
registered [] = []
registered (negsuc n ∷ xs) = registered xs
registered (pos n ∷ xs) = pos n ∷ registered xs

abbrev pub count : ℤ → List ℤ → ℕ
count fd [] = 0
count fd (x ∷ xs) = let rest = count fd xs in if x ==ℤ fd then suc rest else rest

-- A slot table after an optional write.
abbrev pub or_same : Option (List ℤ) → List ℤ → List ℤ
or_same none xs = xs
or_same (some ys) xs = ys

-- A write that a new descriptor makes.
pub record Put (fd : ℤ) (xs ys : List ℤ) : Type 0 where
  pub size : length ys ≡ length xs
  pub more : length (registered ys) ≡ suc (length (registered xs))
  pub counted : (f : ℤ) → count f (registered ys) ≡ count f (fd ∷ registered xs)

pub put_fd-Put : (fd : ℕ) (xs ys : List ℤ) → put_fd (pos fd) xs ≡ some ys → Put (pos fd) xs ys
unfolding put_fd
put_fd-Put fd [] ys e = cc
put_fd-Put fd (negsuc n ∷ xs) ys e = record {
  size = ground arith;
  more = ground arith;
  counted = λ f. ground arith;
}
put_fd-Put fd (pos n ∷ xs) ys e = elim (Option-cases (put_fd (pos fd) xs)) [
  | inl no_slot ↦ absurd (cc)
  | inr (zs, ez) ↦
      let r = put_fd-Put fd xs zs ez in
      record {
        size = ground (arith, r.size);
        more = ground (arith, r.more);
        counted = λ f. ground (arith, r.counted f);
      }
]

-- A write that frees the slot of a descriptor.
pub record Clear (fd : ℤ) (xs ys : List ℤ) : Type 0 where
  pub size : length ys ≡ length xs
  pub fewer : length (registered xs) ≡ suc (length (registered ys))
  pub counted : (f : ℤ) → count f (registered xs) ≡ count f (fd ∷ registered ys)

pub clear_fd-Clear :
    (fd : ℕ) (xs ys : List ℤ) → clear_fd (pos fd) xs ≡ some ys → Clear (pos fd) xs ys
unfolding clear_fd
clear_fd-Clear fd [] ys e = cc
clear_fd-Clear fd (negsuc n ∷ xs) ys e = elim (Option-cases (clear_fd (pos fd) xs)) [
  | inl no_slot ↦ absurd (cc)
  | inr (zs, ez) ↦
      let r = clear_fd-Clear fd xs zs ez in
      record {
        size = ground (arith, r.size);
        fewer = ground (arith, r.fewer);
        counted = λ f. ground (arith, r.counted f);
      }
]
clear_fd-Clear fd (pos n ∷ xs) ys e = elim (Bool-cases (pos n ==ℤ pos fd)) [
  | inl here ↦ record { size = ground arith; fewer = ground arith; counted = λ f. ground arith }
  | inr other ↦ elim (Option-cases (clear_fd (pos fd) xs)) [
    | inl no_slot ↦ absurd (ground arith)
    | inr (zs, ez) ↦
        let r = clear_fd-Clear fd xs zs ez in
        record {
          size = ground (arith, r.size);
          fewer = ground (arith, r.fewer);
          counted = λ f. ground (arith, r.counted f);
        }
  ]
]

-- A descriptor that is in the table is found.
pub clear_fd_found :
    (fd : ℕ) (xs : List ℤ) → 0 < count (pos fd) (registered xs) → clear_fd (pos fd) xs ≢ none
unfolding clear_fd
clear_fd_found fd [] h = absurd (omega arith)
clear_fd_found fd (negsuc n ∷ xs) h = ground (arith, clear_fd_found fd xs)
clear_fd_found fd (pos n ∷ xs) h = ground (arith, clear_fd_found fd xs)

-- The table refuses a descriptor only when all slots are in use.
pub put_fd_full : (fd : ℤ) (xs : List ℤ) → put_fd fd xs ≡ none → length (registered xs) ≡ length xs
unfolding put_fd
put_fd_full fd [] e = refl
put_fd_full fd (negsuc n ∷ xs) e = cc
put_fd_full fd (pos n ∷ xs) e = ground (arith, put_fd_full fd xs)

pub registered-le : (xs : List ℤ) → length (registered xs) ≤ length xs
registered-le [] = omega arith
registered-le (negsuc n ∷ xs) = omega (arith, registered-le xs)
registered-le (pos n ∷ xs) = omega (arith, registered-le xs)
