-- ===== src/Server/Registry.antt =====
-- What the client table of server/main.c promises: a multiset of at most four descriptors, whatever
-- slots they stand in.
use mathlib.Core.Path.{ap}
use mathlib.Core.Quot
use mathlib.Core.Quot.{Quot, Quot-set}
use linux_veda_4sensor_tcp_c.Prelude.{
  ℕ, suc, ◌-◌, ◌≤◌, ◌≡◌, refl, inl, inr, leb, ◌==◌, ℤ, ◌==ℤ◌, eq_of_==ℤ, is_neg, Bool-cases,
  if◌then◌else◌, List, [], ◌∷◌, length, arith,
}
use linux_veda_4sensor_tcp_c.Server.Clients.{max_clients}
use linux_veda_4sensor_tcp_c.Server.ClientLaws.{count}
use linux_veda_4sensor_tcp_c.Server.Accept.{configure_client_socket, Connection, remove_fd}
use linux_veda_4sensor_tcp_c.Server.System.{Action, accept, leave}

abbrev pub SameClients : List ℤ → List ℤ → Type 0
SameClients xs ys = ((f : ℤ) → count f xs ≡ count f ys) × (length xs ≡ length ys)

abbrev pub Room : Type 0
Room = Quot SameClients

abbrev pub of_list : List ℤ → Room
of_list = Quot.mk

unfoldable pub size : Room → ℕ
size = Quot.lift (hlevel) length λ xs ys h. h.1

pub same-cons : (fd : ℤ) (xs ys : List ℤ) → SameClients xs ys → SameClients (fd ∷ xs) (fd ∷ ys)
same-cons fd xs ys h = ((λ f. ground (arith, h.0 f)), ap suc (h.1))

unfoldable pub enter : ℤ → Room → Room
enter fd = Quot.lift Quot-set (λ xs. of_list (fd ∷ xs)) λ xs ys h. Quot.sound (same-cons fd xs ys h)

pub count-remove :
    (fd f : ℤ) (xs : List ℤ)
    → count f (remove_fd fd xs) ≡ (if fd ==ℤ f then count f xs - 1 else count f xs)
count-remove fd f [] = ground arith
count-remove fd f (x ∷ xs) = elim (Bool-cases (x ==ℤ fd)) [
  | inl hit ↦ rw (hit, eq_of_==ℤ x fd hit) (ground arith)
  | inr miss ↦ rw miss (ground (arith, miss, count-remove fd f xs))
]

count-le : (f : ℤ) (xs : List ℤ) → count f xs ≤ length xs
count-le f [] = omega arith
count-le f (x ∷ xs) = ground (arith, count-le f xs)

pub length-remove :
    (fd : ℤ) (xs : List ℤ)
    → length (remove_fd fd xs) ≡ (if leb 1 (count fd xs) then length xs - 1 else length xs)
length-remove fd [] = refl
length-remove fd (x ∷ xs) = elim (Bool-cases (x ==ℤ fd)) [
  | inl hit ↦ rw hit (ground arith)
  | inr miss ↦ rw miss (ground (arith, length-remove fd xs, count-le fd xs))
]

pub same-remove :
    (fd : ℤ) (xs ys : List ℤ) → SameClients xs ys → SameClients (remove_fd fd xs) (remove_fd fd ys)
same-remove fd xs ys h = (
  (λ f. rw (count-remove fd f xs, count-remove fd f ys, h.0 f) refl),
  rw (length-remove fd xs, length-remove fd ys, h.0 fd, h.1) refl,
)

-- One of the descriptors, if it is there.
unfoldable pub depart : ℤ → Room → Room
depart fd =
    Quot.lift Quot-set (λ xs. of_list (remove_fd fd xs))
      λ xs ys h. Quot.sound (same-remove fd xs ys h)

-- A connection is let in if it could be set up, there is room, and it gets a thread.
unfoldable pub admit : Connection → Room → Room
unfolding size enter
admit c r =
    if is_neg c.fd
    then r
    else if is_neg (configure_client_socket c.setsockopt c.fd)
    then r
    else if leb max_clients (size r)
    then r
    else if c.thread_result == 0
    then enter c.fd r
    else r

-- No other action concerns the room.
abbrev pub room_step : Action → Room → Room
room_step (accept c) r = admit c r
room_step (leave fd) r = depart fd r
room_step _ r = r

abbrev pub room_run : List Action → Room → Room
room_run [] r = r
room_run (a ∷ rest) r = room_run rest (room_step a r)
