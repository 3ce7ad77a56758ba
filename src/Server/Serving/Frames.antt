-- ===== src/Server/Serving/Frames.antt =====
-- The steps of server/ that leave the client table, the client threads and the closed descriptors
-- alone.
use linux_veda_4sensor_tcp_c.Prelude.{◌≡◌, arith}
use linux_veda_4sensor_tcp_c.Protocol.{Message}
use linux_veda_4sensor_tcp_c.Server.State.{World, Env}
use linux_veda_4sensor_tcp_c.Server.Clients.{broadcast_msg}
use linux_veda_4sensor_tcp_c.Server.Dispatch.{
  led_thread_step, buzzer_thread_step, dispatch_led, dispatch_buzzer,
}
use linux_veda_4sensor_tcp_c.Server.Melody.{
  stop_melody_thread, start_melody_thread, melody_thread_step,
}
use linux_veda_4sensor_tcp_c.Server.Countdown.{
  stop_segment_thread, start_segment_thread, segment_thread_step,
}
use linux_veda_4sensor_tcp_c.Server.Watch.{sensor_thread_step}
use linux_veda_4sensor_tcp_c.Server.Commands.{
  handle_led_command, handle_buzzer_command, handle_segment_command, handle_system_command,
  handle_command, handle_query, respond,
}

-- What most steps leave alone.
pub record Frame (w v : World) : Type 0 where
  pub fds : v.state.client_fds ≡ w.state.client_fds
  pub n : v.state.n_clients ≡ w.state.n_clients
  pub handlers : v.handlers ≡ w.handlers
  pub closed : v.closed ≡ w.closed

pub led_command-Frame : (c : Message) (w : World) → Frame w (handle_led_command c w).1
unfolding handle_led_command
led_command-Frame c w = ground arith

pub buzzer_command-Frame :
    (env : Env) (c : Message) (w : World) → Frame w (handle_buzzer_command env c w).1
unfolding handle_buzzer_command start_melody_thread stop_melody_thread
buzzer_command-Frame env c w = ground arith

pub segment_command-Frame :
    (env : Env) (c : Message) (w : World) → Frame w (handle_segment_command env c w).1
unfolding handle_segment_command start_segment_thread stop_segment_thread
segment_command-Frame env c w = ground arith

pub system_command-Frame :
    (env : Env) (c : Message) (w : World) → Frame w (handle_system_command env c w).1
unfolding handle_system_command stop_melody_thread stop_segment_thread
system_command-Frame env c w = ground arith

pub command-Frame : (env : Env) (c : Message) (w : World) → Frame w (handle_command env c w).1
unfolding handle_command
command-Frame env c w = ground (
  arith,
  led_command-Frame c w,
  buzzer_command-Frame env c w,
  segment_command-Frame env c w,
  system_command-Frame env c w,
)

pub query-Frame : (env : Env) (q : Message) (w : World) → Frame w (handle_query env q w).1
unfolding handle_query
query-Frame env q w = ground arith

pub respond-Frame : (env : Env) (r : Message) (w : World) → Frame w (respond env r w).1
unfolding respond
respond-Frame env r w = ground (arith, command-Frame env r w, query-Frame env r w)

pub led_thread-Frame : (w : World) → Frame w (led_thread_step w)
unfolding led_thread_step
led_thread-Frame w = ground arith

pub buzzer_thread-Frame : (w : World) → Frame w (buzzer_thread_step w)
unfolding buzzer_thread_step
buzzer_thread-Frame w = ground arith

pub melody_thread-Frame : (w : World) → Frame w (melody_thread_step w)
unfolding melody_thread_step
melody_thread-Frame w = ground arith

pub segment_thread-Frame : (env : Env) (w : World) → Frame w (segment_thread_step env w)
unfolding segment_thread_step stop_melody_thread broadcast_msg
segment_thread-Frame env w = ground arith

pub sensor_thread-Frame : (env : Env) (w : World) → Frame w (sensor_thread_step env w)
unfolding sensor_thread_step stop_melody_thread broadcast_msg dispatch_led dispatch_buzzer
sensor_thread-Frame env w = ground arith
