-- ===== src/Client/EventLaws/Quiet.antt =====
-- The operations of server/ that broadcast nothing.
use linux_veda_4sensor_tcp_c.Prelude.{◌≡◌, ℤ, arith}
use linux_veda_4sensor_tcp_c.Protocol.{Message}
use linux_veda_4sensor_tcp_c.Server.State.{World, Env}
use linux_veda_4sensor_tcp_c.Server.Dispatch.{led_thread_step, buzzer_thread_step}
use linux_veda_4sensor_tcp_c.Server.Melody.{
  stop_melody_thread, start_melody_thread, melody_thread_step,
}
use linux_veda_4sensor_tcp_c.Server.Countdown.{stop_segment_thread, start_segment_thread}
use linux_veda_4sensor_tcp_c.Server.Commands.{
  handle_led_command, handle_buzzer_command, handle_segment_command, handle_system_command,
  handle_command, handle_query, respond,
}
use linux_veda_4sensor_tcp_c.Server.Accept.{Connection, accept_step, end_client}

led_command-events : (c : Message) (w : World) → (handle_led_command c w).1.events ≡ w.events
unfolding handle_led_command
led_command-events c w = ground arith

pub stop_melody-events : (env : Env) (w : World) → (stop_melody_thread env w).events ≡ w.events
unfolding stop_melody_thread
stop_melody-events env w = ground arith

buzzer_command-events :
    (env : Env) (c : Message) (w : World) → (handle_buzzer_command env c w).1.events ≡ w.events
unfolding handle_buzzer_command start_melody_thread stop_melody_thread
buzzer_command-events env c w = ground arith

segment_command-events :
    (env : Env) (c : Message) (w : World) → (handle_segment_command env c w).1.events ≡ w.events
unfolding handle_segment_command start_segment_thread stop_segment_thread
segment_command-events env c w = ground arith

system_command-events :
    (env : Env) (c : Message) (w : World) → (handle_system_command env c w).1.events ≡ w.events
unfolding handle_system_command stop_melody_thread stop_segment_thread
system_command-events env c w = ground arith

command-events :
    (env : Env) (c : Message) (w : World) → (handle_command env c w).1.events ≡ w.events
unfolding handle_command
command-events env c w = ground (
  arith,
  led_command-events c w,
  buzzer_command-events env c w,
  segment_command-events env c w,
  system_command-events env c w,
)

query-events : (env : Env) (q : Message) (w : World) → (handle_query env q w).1.events ≡ w.events
unfolding handle_query
query-events env q w = ground arith

pub respond-events : (env : Env) (r : Message) (w : World) → (respond env r w).1.events ≡ w.events
unfolding respond
respond-events env r w = ground (arith, command-events env r w, query-events env r w)

pub melody_thread-events : (w : World) → (melody_thread_step w).events ≡ w.events
unfolding melody_thread_step
melody_thread-events w = ground arith

pub led_thread-events : (w : World) → (led_thread_step w).events ≡ w.events
unfolding led_thread_step
led_thread-events w = ground arith

pub buzzer_thread-events : (w : World) → (buzzer_thread_step w).events ≡ w.events
unfolding buzzer_thread_step
buzzer_thread-events w = ground arith

pub accept-events : (c : Connection) (w : World) → (accept_step c w).events ≡ w.events
unfolding accept_step
accept-events c w = ground arith

pub end_client-events : (fd : ℤ) (w : World) → (end_client fd w).events ≡ w.events
unfolding end_client
end_client-events fd w = ground arith
