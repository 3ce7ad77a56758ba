-- ===== src/Server/Serving.antt =====
-- The client table, the counter and the client threads of server/ agree, and no descriptor leaks.
mod Defs
pub mod Frames
pub mod Table
pub use Defs.*
use Frames.{
  buzzer_command-Frame, buzzer_thread-Frame, command-Frame, led_command-Frame, led_thread-Frame,
  melody_thread-Frame, query-Frame, respond-Frame, segment_command-Frame, segment_thread-Frame,
  sensor_thread-Frame, system_command-Frame,
}
use Table.{Frame-Serves, Put-Serves, close-Serves, admit-Serves, end_client-Serves}
use linux_veda_4sensor_tcp_c.Prelude.{
  ℕ, zero, suc, ◌+◌, ◌≤◌, ◌<◌, ◌≡◌, refl, ◌∙◌, sym, inl, inr, ℤ, pos, negsuc, is_neg, subst, ◌==◌,
  ◌==ℤ◌, ==ℤ_refl, eq_of_==ℤ, ◌+ℤ◌, ◌-ℤ◌, Bool, true, false, ◌||◌, if◌then◌else◌, Bool-cases,
  Option, none, some, Option-cases, List, [], ◌∷◌, length, arith,
}
use linux_veda_4sensor_tcp_c.Protocol.{Message}
use linux_veda_4sensor_tcp_c.Server.State.{World, SystemState, Env}
use linux_veda_4sensor_tcp_c.Server.Clients.{
  max_clients, put_fd, clear_fd, register_client, unregister_client, broadcast_msg,
}
use linux_veda_4sensor_tcp_c.Server.ClientLaws.{
  registered, count, Put, Clear, put_fd-Put, clear_fd-Clear, clear_fd_found, put_fd_full,
  registered-le,
}
use linux_veda_4sensor_tcp_c.Server.Dispatch.{
  led_thread_step, buzzer_thread_step, dispatch_led, dispatch_buzzer,
}
use linux_veda_4sensor_tcp_c.Server.Melody.{
  stop_melody_thread, start_melody_thread, melody_thread_step,
}
use linux_veda_4sensor_tcp_c.Server.Countdown.{
  stop_segment_thread, start_segment_thread, segment_thread_step,
}
use linux_veda_4sensor_tcp_c.Server.Watch.{sensor_thread_step}
use linux_veda_4sensor_tcp_c.Server.Commands.{
  handle_led_command, handle_buzzer_command, handle_segment_command, handle_system_command,
  handle_command, handle_query, respond,
}
use linux_veda_4sensor_tcp_c.Server.Accept.{
  configure_client_socket, Connection, accept_step, admit_client, end_client, remove_fd,
  initial_world,
}
use linux_veda_4sensor_tcp_c.Server.System.{
  Action, led, buzzer, melody, segment, sensor, accept, request, leave, has_handler, step, run,
}

-- The descriptors that `accept` has returned, after one more action.
abbrev pub opens : Action → List ℤ → List ℤ
opens (accept c) os = if is_neg c.fd then os else c.fd ∷ os
opens _ os = os

pub is_pos : (z : ℤ) → is_neg z ≡ false → (n : ℕ) × (z ≡ pos n)
is_pos (pos n) e = (n, refl)
is_pos (negsuc n) e = cc

accept-Serves :
    {os : List ℤ} (c : Connection) (w : World)
    → Serves os w
    → Serves (opens (accept c) os) (accept_step c w)
unfolding accept_step
accept-Serves c w s = elim (Bool-cases (is_neg c.fd)) [
  | inl failed ↦ rw failed s
  | inr opened ↦
      let (fd, e) = is_pos c.fd opened in
      elim (Bool-cases (is_neg (configure_client_socket c.setsockopt c.fd))) [
        | inl bad ↦ rw (opened, bad) (rw e (close-Serves fd w s))
        | inr good ↦ rw (opened, good) (admit-Serves c fd w e s)
      ]
]

pub step-Serves :
    {os : List ℤ} (a : Action) (w : World) → Serves os w → Serves (opens a os) (step a w)
unfolding step
step-Serves led w s = Frame-Serves (led_thread-Frame w) s
step-Serves buzzer w s = Frame-Serves (buzzer_thread-Frame w) s
step-Serves melody w s = Frame-Serves (melody_thread-Frame w) s
step-Serves (segment env) w s = Frame-Serves (segment_thread-Frame env w) s
step-Serves (sensor env) w s = Frame-Serves (sensor_thread-Frame env w) s
step-Serves (accept c) w s = accept-Serves c w s
step-Serves (request env r) w s = Frame-Serves (respond-Frame env r w) s
step-Serves (leave fd) w s = elim (Bool-cases (has_handler fd w.handlers)) [
  | inl there ↦ rw there (end_client-Serves fd w there s)
  | inr gone ↦ rw gone s
]

-- The descriptors that `accept` has returned in a run, newest first.
abbrev pub opened : List Action → List ℤ → List ℤ
opened [] os = os
opened (a ∷ acts) os = opened acts (opens a os)

run_from-Serves :
    (acts : List Action) (os : List ℤ) (w : World)
    → Serves os w
    → Serves (opened acts os) (run acts w)
unfolding run
run_from-Serves [] os w s = s
run_from-Serves (a ∷ acts) os w s = run_from-Serves acts (opens a os) (step a w) (step-Serves a w s)

initial-Serves : Serves [] initial_world
initial-Serves = record {
  slots = refl;
  counter = refl;
  threads = refl;
  same = λ f. refl;
  kept = λ f. ground arith;
}

-- After any run of the server the table has its four slots, `n_clients` is the number of
-- descriptors in it, these are exactly the descriptors with a client thread, and every descriptor
-- that `accept` returned is either among them or has been closed, as often as it was returned.
pub run-Serves : (acts : List Action) → Serves (opened acts []) (run acts initial_world)
run-Serves acts = run_from-Serves acts [] initial_world initial-Serves

-- So there are never more than four client threads.
pub handlers-le : (acts : List Action) → length (run acts initial_world).handlers ≤ max_clients
handlers-le acts =
    let s = run-Serves acts in
    omega (arith, s.threads, s.slots, registered-le (run acts initial_world).state.client_fds)
