-- ===== src/Server/Serving/Table.antt =====
-- The registration of a client in `main` of server/main.c, and the end of its thread in
-- `handle_client` of server/handler.c.
use linux_veda_4sensor_tcp_c.Prelude.{
  ℕ, suc, ◌<◌, ◌≡◌, refl, inl, inr, ℤ, pos, negsuc, ◌==◌, ◌==ℤ◌, eq_of_==ℤ, ◌+ℤ◌, ◌-ℤ◌, true,
  Bool-cases, Option-cases, List, [], ◌∷◌, length, arith,
}
use linux_veda_4sensor_tcp_c.Server.State.{World}
use linux_veda_4sensor_tcp_c.Server.Clients.{put_fd, clear_fd, register_client, unregister_client}
use linux_veda_4sensor_tcp_c.Server.ClientLaws.{
  registered, count, Put, Clear, put_fd-Put, clear_fd-Clear, clear_fd_found,
}
use linux_veda_4sensor_tcp_c.Server.Accept.{Connection, admit_client, end_client, remove_fd}
use linux_veda_4sensor_tcp_c.Server.System.{has_handler}
use linux_veda_4sensor_tcp_c.Server.Serving.Defs.{Serves}
use linux_veda_4sensor_tcp_c.Server.Serving.Frames.{Frame}

pub Frame-Serves : {os : List ℤ} {w v : World} → Frame w v → Serves os w → Serves os v
Frame-Serves fr s = record {
  slots = ground (arith, s.slots, fr.fds);
  counter = ground (arith, s.counter, fr.fds, fr.n);
  threads = ground (arith, s.threads, fr.fds, fr.handlers);
  same = λ f. ground (arith, s.same f, fr.fds, fr.handlers);
  kept = λ f. ground (arith, s.kept f, fr.handlers, fr.closed);
}

-- A registration, and its undoing where the thread cannot be made.
pub Put-Serves :
    {os : List ℤ} (fd : ℕ) (ys : List ℤ) (w : World)
    → Put (pos fd) w.state.client_fds ys
    → Serves os w
    → Serves (pos fd ∷ os) (record w {
      state = record (w.state) { client_fds = ys; n_clients = w.state.n_clients +ℤ pos 1 };
      handlers = pos fd ∷ w.handlers;
    })
Put-Serves fd ys w p s = record {
  slots = ground (arith, s.slots, p.size);
  counter = ground (arith, s.counter, p.more);
  threads = ground (arith, s.threads, p.more);
  same = λ f. ground (arith, s.same f, p.counted f);
  kept = λ f. ground (arith, s.kept f);
}

pub close-Serves :
    {os : List ℤ} (fd : ℕ) (w : World)
    → Serves os w
    → Serves (pos fd ∷ os) (record w { closed = pos fd ∷ w.closed })
close-Serves fd w s = record {
  slots = s.slots;
  counter = s.counter;
  threads = s.threads;
  same = s.same;
  kept = λ f. ground (arith, s.kept f);
}

pub undo-Serves :
    {os : List ℤ} (fd : ℕ) (ys zs : List ℤ) (w : World)
    → Put (pos fd) w.state.client_fds ys
    → Clear (pos fd) ys zs
    → Serves os w
    → Serves (pos fd ∷ os) (record w {
      state = record (w.state) { client_fds = zs; n_clients = w.state.n_clients +ℤ pos 1 -ℤ pos 1 };
      closed = pos fd ∷ w.closed;
    })
undo-Serves fd ys zs w p c s = record {
  slots = ground (arith, s.slots, p.size, c.size);
  counter = ground (arith, s.counter, p.more, c.fewer);
  threads = ground (arith, s.threads, p.more, c.fewer);
  same = λ f. ground (arith, s.same f, p.counted f, c.counted f);
  kept = λ f. ground (arith, s.kept f);
}

-- Where the thread cannot be made, the slot just taken is found and freed.
pub refuse-Serves :
    {os : List ℤ} (fd : ℕ) (ys : List ℤ) (w : World)
    → Put (pos fd) w.state.client_fds ys
    → Serves os w
    → Serves (pos fd ∷ os) (record w {
      state =
          unregister_client
            (pos fd)
            (record (w.state) { client_fds = ys; n_clients = w.state.n_clients +ℤ pos 1 });
      closed = pos fd ∷ w.closed;
    })
unfolding unregister_client
refuse-Serves fd ys w p s = elim (Option-cases (clear_fd (pos fd) ys)) [
  | inl missing ↦ absurd (clear_fd_found fd ys (ground (arith, p.counted (pos fd))) missing)
  | inr (zs, cleared) ↦
      rw (cleared, unregister_client) (undo-Serves fd ys zs w p (clear_fd-Clear fd ys zs cleared) s)
]

pub admit-Serves :
    {os : List ℤ} (c : Connection) (fd : ℕ) (w : World)
    → c.fd ≡ pos fd
    → Serves os w
    → Serves (c.fd ∷ os) (admit_client c (register_client c.fd w.state) w)
unfolding admit_client register_client
admit-Serves c fd w e s = rw e (elim (Option-cases (put_fd (pos fd) w.state.client_fds)) [
  | inl full ↦ rw (full, register_client) (close-Serves fd w s)
  | inr (ys, put) ↦
      let p = put_fd-Put fd w.state.client_fds ys put in
      elim (Bool-cases (c.thread_result == 0)) [
        | inl made ↦ rw (put, register_client, made) (Put-Serves fd ys w p s)
        | inr refused ↦ rw (put, register_client, refused) (refuse-Serves fd ys w p s)
      ]
])

pub count-remove_fd :
    (fd f : ℤ) (hs : List ℤ)
    → has_handler fd hs ≡ true
    → count f hs ≡ count f (fd ∷ remove_fd fd hs)
count-remove_fd fd f [] h = cc
count-remove_fd fd f (x ∷ hs) h = elim (Bool-cases (x ==ℤ fd)) [
  | inl hit ↦ rw (hit, eq_of_==ℤ x fd hit)
  | inr miss ↦ ground (arith, miss, count-remove_fd fd f hs)
]

pub length-remove_fd :
    (fd : ℤ) (hs : List ℤ) → has_handler fd hs ≡ true → length hs ≡ suc (length (remove_fd fd hs))
length-remove_fd fd [] h = cc
length-remove_fd fd (x ∷ hs) h = ground (arith, length-remove_fd fd hs)

-- No negative descriptor is in the table, so none has a thread.
pub count-registered_neg : (n : ℕ) (xs : List ℤ) → count (negsuc n) (registered xs) ≡ 0
count-registered_neg n [] = refl
count-registered_neg n (negsuc m ∷ xs) = count-registered_neg n xs
count-registered_neg n (pos m ∷ xs) = count-registered_neg n xs

pub has_handler-count : (fd : ℤ) (hs : List ℤ) → has_handler fd hs ≡ true → 0 < count fd hs
has_handler-count fd [] h = cc
has_handler-count fd (x ∷ hs) h = ground (arith, has_handler-count fd hs)

pub end_client-Serves :
    {os : List ℤ} (fd : ℤ) (w : World)
    → has_handler fd w.handlers ≡ true
    → Serves os w
    → Serves os (end_client fd w)
unfolding end_client unregister_client
end_client-Serves (negsuc n) w h s = absurd (
    omega (
      arith,
      s.same (negsuc n),
      count-registered_neg n w.state.client_fds,
      has_handler-count (negsuc n) w.handlers h,
    ))
end_client-Serves (pos fd) w h s = elim (Option-cases (clear_fd (pos fd) w.state.client_fds)) [
  | inl missing ↦ absurd (
      clear_fd_found fd w.state.client_fds
        (omega (arith, s.same (pos fd), has_handler-count (pos fd) w.handlers h)) missing)
  | inr (zs, cleared) ↦
      let c = clear_fd-Clear fd w.state.client_fds zs cleared in
      rw (cleared, unregister_client)
        (record {
          slots = ground (arith, s.slots, c.size);
          counter = ground (arith, s.counter, c.fewer);
          threads = ground (arith, s.threads, c.fewer, length-remove_fd (pos fd) w.handlers h);
          same =
              λ f. ground (arith, s.same f, c.counted f, count-remove_fd (pos fd) f w.handlers h);
          kept = λ f. ground (arith, s.kept f, count-remove_fd (pos fd) f w.handlers h);
        })
]
