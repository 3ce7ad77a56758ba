-- ===== src/Server/System.antt =====
-- The whole server: every thread of server/, a step at a time, in any order.
use linux_veda_4sensor_tcp_c.Prelude.{ℤ, ◌==ℤ◌, if◌then◌else◌, Bool, false, ◌||◌, List, [], ◌∷◌}
use linux_veda_4sensor_tcp_c.Protocol.{Message}
use linux_veda_4sensor_tcp_c.Server.State.{World, Env}
use linux_veda_4sensor_tcp_c.Server.Dispatch.{led_thread_step, buzzer_thread_step}
use linux_veda_4sensor_tcp_c.Server.Melody.{melody_thread_step}
use linux_veda_4sensor_tcp_c.Server.Countdown.{segment_thread_step}
use linux_veda_4sensor_tcp_c.Server.Watch.{sensor_thread_step}
use linux_veda_4sensor_tcp_c.Server.Commands.{respond}
use linux_veda_4sensor_tcp_c.Server.Accept.{Connection, accept_step, end_client}

-- What happens next: a thread takes a step, or a client thread serves a request or ends.
pub data Action : Type 0 where
  led buzzer melody : Action
  segment sensor : Env → Action
  accept : Connection → Action
  request : Env → Message → Action
  leave : (fd : ℤ) → Action

abbrev pub has_handler : ℤ → List ℤ → Bool
has_handler fd [] = false
has_handler fd (x ∷ xs) = x ==ℤ fd || has_handler fd xs

-- Only a thread that is there can end.
unfoldable pub step : Action → World → World
step led w = led_thread_step w
step buzzer w = buzzer_thread_step w
step melody w = melody_thread_step w
step (segment env) w = segment_thread_step env w
step (sensor env) w = sensor_thread_step env w
step (accept c) w = accept_step c w
step (request env r) w = (respond env r w).1
step (leave fd) w = if has_handler fd w.handlers then end_client fd w else w

unfoldable pub run : List Action → World → World
run [] w = w
run (a ∷ rest) w = run rest (step a w)
