-- ===== src/Server/Clients.antt =====
-- The table of clients: the loops over client_fds in `main` and `broadcast_msg` of server/main.c
-- and at the end of `handle_client` of server/handler.c.
use linux_veda_4sensor_tcp_c.Prelude.{
  ℕ, ℤ, pos, negsuc, is_neg, ◌==ℤ◌, ◌+ℤ◌, ◌-ℤ◌, if◌then◌else◌, Bool, true, false, Option, none,
  some, List, [], ◌∷◌,
}
use linux_veda_4sensor_tcp_c.Protocol.{Message}
use linux_veda_4sensor_tcp_c.Server.State.{World, SystemState, Env}

abbrev pub max_clients : ℕ
max_clients = 4

abbrev pub no_client : ℤ
no_client = negsuc 0

abbrev keep_slot : ℤ → Option (List ℤ) → Option (List ℤ)
keep_slot x none = none
keep_slot x (some xs) = some (x ∷ xs)

-- The first free slot takes the descriptor; `none` if there is none.
unfoldable pub put_fd : ℤ → List ℤ → Option (List ℤ)
put_fd fd [] = none
put_fd fd (x ∷ xs) = if is_neg x then some (fd ∷ xs) else keep_slot x (put_fd fd xs)

-- The first slot with the descriptor is freed; `none` if there is none.
unfoldable pub clear_fd : ℤ → List ℤ → Option (List ℤ)
clear_fd fd [] = none
clear_fd fd (x ∷ xs) = if x ==ℤ fd then some (no_client ∷ xs) else keep_slot x (clear_fd fd xs)

-- The registration in the loop of `main`, with its local `added`.
unfoldable pub register_client : ℤ → SystemState → Bool × SystemState
unfolding put_fd
register_client fd s = elim (put_fd fd s.client_fds) [
  | none ↦ (false, s)
  | some fds ↦ (true, record s { client_fds = fds; n_clients = s.n_clients +ℤ pos 1 })
]

-- The same loop stands in `main`, where the thread cannot be made, and in `handle_client`.
unfoldable pub unregister_client : ℤ → SystemState → SystemState
unfolding clear_fd
unregister_client fd s = elim (clear_fd fd s.client_fds) [
  | none ↦ s
  | some fds ↦ record s { client_fds = fds; n_clients = s.n_clients -ℤ pos 1 }
]

-- The first loop of `broadcast_msg`: the copies that `dup` makes of the registered descriptors.
unfoldable pub client_copies : (ℤ → ℤ) → List ℤ → List ℤ
client_copies dup [] = []
client_copies dup (x ∷ xs) =
    let rest = client_copies dup xs in
    if is_neg x then rest else if is_neg (dup x) then rest else dup x ∷ rest

-- The second: a send on each copy, whose result is not looked at.
unfoldable pub send_to : Message → List ℤ → List (ℤ × Message) → List (ℤ × Message)
send_to m [] sends = sends
send_to m (c ∷ cs) sends = send_to m cs ((c, m) ∷ sends)

unfoldable pub broadcast_msg : Env → Message → World → World
unfolding client_copies send_to
broadcast_msg env m w = record w {
  events = send_to m (client_copies env.dup w.state.client_fds) w.events;
}
