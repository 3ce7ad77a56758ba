-- ===== src/Server/Accept.antt =====
-- Start-up and the accept loop of `main` in server/main.c, and the end of `handle_client` in
-- server/handler.c.
use linux_veda_4sensor_tcp_c.Prelude.{
  ℕ, ℤ, pos, negsuc, is_neg, ◌==◌, ◌==ℤ◌, if◌then◌else◌, Bool, true, false, List, [], ◌∷◌, Option,
  none, some,
}
use linux_veda_4sensor_tcp_c.Wiring.{gpio_led, gpio_buzzer, g_seg_pins}
use linux_veda_4sensor_tcp_c.Devices.Board.{Board}
use linux_veda_4sensor_tcp_c.Devices.Led.{led_init}
use linux_veda_4sensor_tcp_c.Devices.Buzzer.{buzzer_init}
use linux_veda_4sensor_tcp_c.Devices.Sensor.{sensor_init}
use linux_veda_4sensor_tcp_c.Devices.Segment.{segment_init}
use linux_veda_4sensor_tcp_c.Server.State.{
  World, SystemState, MelodyThread, SegmentThread, polling, set_state, set_board,
}
use linux_veda_4sensor_tcp_c.Server.Clients.{no_client, register_client, unregister_client}

-- The static variables as the program is loaded; `segment_pins` is eight zeros.
abbrev pub initial_board : Board
initial_board = record {
  led_pin = negsuc 0;
  buzzer_pin = negsuc 0;
  buzzer_stop = 0;
  sensor_fd = negsuc 0;
  segment_pins = pos 0 ∷ pos 0 ∷ pos 0 ∷ pos 0 ∷ pos 0 ∷ pos 0 ∷ pos 0 ∷ pos 0 ∷ [];
  calls = [];
}

-- The initialiser of g_state; the fields that it leaves out are 0.
abbrev pub initial_state : SystemState
initial_state = record {
  alarm_active = 0;
  led_state = 0;
  led_brightness = 0;
  buzzer_state = 0;
  sensor_blocked = 0;
  segment_value = negsuc 0;
  client_fds = no_client ∷ no_client ∷ no_client ∷ no_client ∷ [];
  n_clients = pos 0;
}

abbrev pub initial_world : World
initial_world = record {
  state = initial_state;
  led_cmd = record { action = 0; value = 0; pending = 0 };
  buzzer_cmd = record { action = 0; pending = 0 };
  melody = record { running = 0; joinable = 0; thread = MelodyThread.absent };
  segment = record { running = 0; joinable = 0; thread = SegmentThread.absent };
  sensor = polling 0;
  board = initial_board;
  events = [];
  log = [];
  closed = [];
  handlers = [];
}

-- The results of the four hardware set-up calls.
pub record Setup : Type 0 where
  pub led : ℤ
  pub buzzer : ℤ
  pub sensor : ℤ
  pub segment : ℤ

-- The `||` of `initialize_hardware`: true if an initialisation failed, with the board behind it.
unfoldable pub init_devices : Setup → Board → Bool × Board
init_devices r b =
    let (led, b₁) = led_init r.led gpio_led b in
    let (buzzer, b₂) = buzzer_init r.buzzer gpio_buzzer b₁ in
    let (sensor, b₃) = sensor_init r.sensor b₂ in
    let (segment, b₄) = segment_init r.segment g_seg_pins b₃ in
    if is_neg led
    then (true, b₁)
    else if is_neg buzzer
    then (true, b₂)
    else if is_neg sensor
    then (true, b₃)
    else (is_neg segment, b₄)

-- `none` is the exit of the process.
unfoldable pub initialize_hardware : Setup → World → Option World
unfolding init_devices
initialize_hardware r w =
    let (failed, b) = init_devices r w.board in if failed then none else some (set_board b w)

-- `struct timeval`.
pub record Timeval : Type 0 where
  pub tv_sec : ℕ
  pub tv_usec : ℕ

abbrev pub client_send_timeout_seconds : ℕ
client_send_timeout_seconds = 1

-- What one round of the accept loop gets from the system.
pub record Connection : Type 0 where
  pub fd : ℤ  -- accept
  pub setsockopt : ℤ → Timeval → ℤ  -- for SO_SNDTIMEO
  pub thread_result : ℕ  -- pthread_create

abbrev pub configure_client_socket : (ℤ → Timeval → ℤ) → ℤ → ℤ
configure_client_socket setsockopt client_fd =
    setsockopt client_fd (record { tv_sec = client_send_timeout_seconds; tv_usec = 0 })

abbrev close_fd : ℤ → World → World
close_fd fd w = record w { closed = fd ∷ w.closed }

-- From the registration to the end of the round.
unfoldable pub admit_client : Connection → Bool × SystemState → World → World
unfolding unregister_client
admit_client c (false, s) w = close_fd c.fd (set_state s w)
admit_client c (true, s) w =
    if c.thread_result == 0
    then record w { state = s; handlers = c.fd ∷ w.handlers }
    else close_fd c.fd (set_state (unregister_client c.fd s) w)

unfoldable pub accept_step : Connection → World → World
unfolding admit_client register_client
accept_step c w =
    if is_neg c.fd
    then w
    else if is_neg (configure_client_socket c.setsockopt c.fd)
    then close_fd c.fd w
    else admit_client c (register_client c.fd w.state) w

-- A descriptor leaves the list of those with a thread.
abbrev pub remove_fd : ℤ → List ℤ → List ℤ
remove_fd fd [] = []
remove_fd fd (x ∷ xs) = let rest = remove_fd fd xs in if x ==ℤ fd then xs else x ∷ rest

-- The lines of `handle_client` behind its loop, with the end of the thread.
unfoldable pub end_client : ℤ → World → World
unfolding unregister_client
end_client fd w =
    close_fd fd
      (record w { state = unregister_client fd w.state; handlers = remove_fd fd w.handlers })
