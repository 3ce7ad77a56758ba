-- ===== src/Server/RegistryLaws.antt =====
-- That the client table of server/ is what Registry promises.
use mathlib.Core.Quot
use mathlib.Core.Quot.{Quot}
use linux_veda_4sensor_tcp_c.Prelude.{
  ℕ, ◌≡◌, refl, ap, ◌∙◌, inl, inr, leb, ◌==◌, ℤ, pos, negsuc, ◌==ℤ◌, eq_of_==ℤ, is_neg, ◌+ℤ◌, true,
  false, Bool-cases, if◌then◌else◌, Option-cases, List, [], ◌∷◌, length, arith, subst,
}
use linux_veda_4sensor_tcp_c.Server.State.{World}
use linux_veda_4sensor_tcp_c.Server.Dispatch.{led_thread_step, buzzer_thread_step}
use linux_veda_4sensor_tcp_c.Server.Melody.{melody_thread_step}
use linux_veda_4sensor_tcp_c.Server.Countdown.{segment_thread_step}
use linux_veda_4sensor_tcp_c.Server.Watch.{sensor_thread_step}
use linux_veda_4sensor_tcp_c.Server.Commands.{respond}
use linux_veda_4sensor_tcp_c.Server.Clients.{
  max_clients, put_fd, clear_fd, register_client, unregister_client,
}
use linux_veda_4sensor_tcp_c.Server.ClientLaws.{
  registered, count, Put, Clear, put_fd-Put, clear_fd-Clear, clear_fd_found, put_fd_full,
  registered-le,
}
use linux_veda_4sensor_tcp_c.Server.Accept.{
  configure_client_socket, Connection, accept_step, admit_client, end_client, remove_fd,
  initial_world,
}
use linux_veda_4sensor_tcp_c.Server.System.{
  Action, led, buzzer, melody, segment, sensor, accept, request, leave, has_handler, step, run,
}
use linux_veda_4sensor_tcp_c.Server.Serving.Frames.{
  Frame, led_thread-Frame, buzzer_thread-Frame, melody_thread-Frame, segment_thread-Frame,
  sensor_thread-Frame, respond-Frame,
}
use linux_veda_4sensor_tcp_c.Server.Serving.Table.{count-registered_neg, has_handler-count}
use linux_veda_4sensor_tcp_c.Server.Serving.{is_pos, Serves, opens, opened, step-Serves, run-Serves}
use linux_veda_4sensor_tcp_c.Server.Registry.{
  SameClients, Room, of_list, size, enter, count-remove, length-remove, depart, admit, room_step,
  room_run,
}

-- The room that the table stands for.
abbrev pub room : World → Room
room w = of_list (registered w.state.client_fds)

same-Put :
    (fd : ℤ) (xs ys : List ℤ) → Put fd xs ys → SameClients (registered ys) (fd ∷ registered xs)
same-Put fd xs ys p = (p.counted, p.more)

-- Taken and freed again.
same-undo :
    (fd : ℤ) (xs ys zs : List ℤ)
    → Put fd xs ys
    → Clear fd ys zs
    → SameClients (registered zs) (registered xs)
same-undo fd xs ys zs p c =
    ((λ f. ground (arith, p.counted f, c.counted f)), omega (arith, p.more, c.fewer))

-- A slot that is freed, against the removal from the list.
same-Clear :
    (fd : ℤ) (ys zs : List ℤ)
    → Clear fd ys zs
    → SameClients (registered zs) (remove_fd fd (registered ys))
same-Clear fd ys zs c = (
  (λ f. ground (arith, c.counted f, count-remove fd f (registered ys))),
  ground (arith, c.counted fd, c.fewer, length-remove fd (registered ys)),
)

-- Where no thread can be had, the slot just taken is freed.
refuse-room :
    (fd : ℕ) (ys : List ℤ) (w : World)
    → Put (pos fd) w.state.client_fds ys
    → of_list (
        registered
          (unregister_client (pos fd) (record (w.state) {
            client_fds = ys;
            n_clients = w.state.n_clients +ℤ pos 1;
          })).client_fds)
      ≡ room w
unfolding unregister_client
refuse-room fd ys w p = elim (Option-cases (clear_fd (pos fd) ys)) [
  | inl missing ↦ absurd (clear_fd_found fd ys (ground (arith, p.counted (pos fd))) missing)
  | inr (zs, cleared) ↦
      rw (cleared, unregister_client)
        (Quot.sound
          (same-undo (pos fd) w.state.client_fds ys zs p (clear_fd-Clear fd ys zs cleared)))
]

count-no_handler : (fd : ℤ) (hs : List ℤ) → has_handler fd hs ≡ false → count fd hs ≡ 0
count-no_handler fd [] h = refl
count-no_handler fd (x ∷ hs) h = ground (arith, h, count-no_handler fd hs)

absent-remove : (fd : ℤ) (xs : List ℤ) → count fd xs ≡ 0 → SameClients xs (remove_fd fd xs)
absent-remove fd xs absent = (
  (λ f. elim (Bool-cases (fd ==ℤ f)) [
    | inl same ↦
        let none_left : count f xs ≡ 0 = subst (λ g. count g xs ≡ 0) (eq_of_==ℤ fd f same) absent in
        rw (count-remove fd f xs, same, none_left) refl
    | inr other ↦ rw (count-remove fd f xs, other) refl
  ]),
  rw (length-remove fd xs, absent) refl,
)

-- A descriptor that no thread has is not in the room.
not_there :
    {os : List ℤ} (fd : ℤ) (w : World)
    → Serves os w
    → has_handler fd w.handlers ≡ false
    → room w ≡ depart fd (room w)
unfolding depart
not_there fd w s gone = Quot.sound (
    absent-remove fd (registered w.state.client_fds)
      (s.same fd ∙ count-no_handler fd w.handlers gone))

-- The registration in a table that has room or not.
admit_client-room :
    {os : List ℤ} (c : Connection) (fd : ℕ) (w : World)
    → c.fd ≡ pos fd
    → Serves os w
    → room (admit_client c (register_client c.fd w.state) w) ≡ (
        if leb max_clients (length (registered w.state.client_fds))
        then room w
        else if c.thread_result == 0
        then of_list (c.fd ∷ registered w.state.client_fds)
        else room w)
unfolding admit_client register_client
admit_client-room c fd w e s = rw e (elim (Option-cases (put_fd (pos fd) w.state.client_fds)) [
  | inl full ↦
      let none_free : leb max_clients (length (registered w.state.client_fds)) ≡ true =
        ground (arith, put_fd_full (pos fd) w.state.client_fds full, s.slots) in
      rw (full, register_client, none_free) refl
  | inr (ys, put) ↦
      let p = put_fd-Put fd w.state.client_fds ys put in
      let one_free : leb max_clients (length (registered w.state.client_fds)) ≡ false =
        ground (arith, p.more, p.size, registered-le ys, s.slots) in
      elim (Bool-cases (c.thread_result == 0)) [
        | inl made ↦
            rw (put, register_client, one_free, made)
              (Quot.sound (same-Put (pos fd) w.state.client_fds ys p))
        | inr refused ↦ rw (put, register_client, one_free, refused) (refuse-room fd ys w p)
      ]
])

accept-room :
    {os : List ℤ} (c : Connection) (w : World)
    → Serves os w
    → room (accept_step c w) ≡ admit c (room w)
unfolding accept_step admit size enter
accept-room c w s = elim (Bool-cases (is_neg c.fd)) [
  | inl failed ↦ rw failed refl
  | inr opened ↦
      let (fd, e) = is_pos c.fd opened in
      elim (Bool-cases (is_neg (configure_client_socket c.setsockopt c.fd))) [
        | inl bad ↦ rw (opened, bad) refl
        | inr good ↦ rw (opened, good) (admit_client-room c fd w e s)
      ]
]

end_client-room :
    {os : List ℤ} (fd : ℤ) (w : World)
    → Serves os w
    → has_handler fd w.handlers ≡ true
    → room (end_client fd w) ≡ depart fd (room w)
unfolding end_client unregister_client depart
end_client-room (negsuc n) w s h = absurd (
    omega (
      arith,
      s.same (negsuc n),
      count-registered_neg n w.state.client_fds,
      has_handler-count (negsuc n) w.handlers h,
    ))
end_client-room (pos fd) w s h = elim (Option-cases (clear_fd (pos fd) w.state.client_fds)) [
  | inl missing ↦ absurd (
      clear_fd_found fd w.state.client_fds
        (omega (arith, s.same (pos fd), has_handler-count (pos fd) w.handlers h)) missing)
  | inr (zs, cleared) ↦
      let c = clear_fd-Clear fd w.state.client_fds zs cleared in
      rw (cleared, unregister_client) (Quot.sound (same-Clear (pos fd) w.state.client_fds zs c))
]

same-room : (w v : World) → Frame w v → room v ≡ room w
same-room w v fr = ap (λ fds. of_list (registered fds)) fr.fds

step-room :
    {os : List ℤ} (a : Action) (w : World) → Serves os w → room (step a w) ≡ room_step a (room w)
unfolding step
step-room led w s = same-room w (led_thread_step w) (led_thread-Frame w)
step-room buzzer w s = same-room w (buzzer_thread_step w) (buzzer_thread-Frame w)
step-room melody w s = same-room w (melody_thread_step w) (melody_thread-Frame w)
step-room (segment env) w s = same-room w (segment_thread_step env w) (segment_thread-Frame env w)
step-room (sensor env) w s = same-room w (sensor_thread_step env w) (sensor_thread-Frame env w)
step-room (accept c) w s = accept-room c w s
step-room (request env r) w s = same-room w (respond env r w).1 (respond-Frame env r w)
step-room (leave fd) w s = elim (Bool-cases (has_handler fd w.handlers)) [
  | inl there ↦ rw there (end_client-room fd w s there)
  | inr gone ↦ rw gone (not_there fd w s gone)
]

run_from-room :
    (acts : List Action) (os : List ℤ) (w : World)
    → Serves os w
    → room (run acts w) ≡ room_run acts (room w)
unfolding run
run_from-room [] os w s = refl
run_from-room (a ∷ acts) os w s =
    run_from-room acts (opens a os) (step a w) (step-Serves a w s)
    ∙ ap (room_run acts) (step-room a w s)

-- After any run of the server the table holds, in whatever slots, the multiset of descriptors that
-- one gets from the empty one by letting a connection in whenever it is set up, fewer than four are
-- in and a thread can be had, and taking out the descriptor of each client thread that ends.
pub run-room : (acts : List Action) → room (run acts initial_world) ≡ room_run acts (of_list [])
unfolding run
run-room acts = run_from-room acts [] initial_world (run-Serves [])
