-- ===== src/Server/Dispatch.antt =====
-- The mailboxes of the LED and buzzer threads: dispatch_led and dispatch_buzzer of server/main.c,
-- led_thread_fn and buzzer_thread_fn of server/handler.c.
use linux_veda_4sensor_tcp_c.Prelude.{ℕ, ◌==◌, if◌then◌else◌}
use linux_veda_4sensor_tcp_c.Protocol.{act_on, act_off, act_set_brightness}
use linux_veda_4sensor_tcp_c.Devices.Board.{Board}
use linux_veda_4sensor_tcp_c.Devices.Led.{led_on, led_off, led_set_brightness}
use linux_veda_4sensor_tcp_c.Devices.Buzzer.{buzzer_on, buzzer_off}
use linux_veda_4sensor_tcp_c.Server.State.{World}

unfoldable pub dispatch_led : ℕ → ℕ → World → World
dispatch_led action value w = record w {
  led_cmd = record { action = action; value = value; pending = 1 };
}

unfoldable pub dispatch_buzzer : ℕ → World → World
dispatch_buzzer action w = record w { buzzer_cmd = record { action = action; pending = 1 } }

-- The `switch` of `led_thread_fn`.
unfoldable pub apply_led : ℕ → ℕ → Board → Board
apply_led action value b =
    if action == act_on
    then led_on b
    else if action == act_off
    then led_off b
    else if action == act_set_brightness
    then led_set_brightness value b
    else b

-- A round of `led_thread_fn`, which waits while no command is pending.
unfoldable pub led_thread_step : World → World
unfolding apply_led
led_thread_step w = if w.led_cmd.pending == 0 then w else record w {
  led_cmd = record (w.led_cmd) { pending = 0 };
  board = apply_led w.led_cmd.action w.led_cmd.value w.board;
}

unfoldable pub apply_buzzer : ℕ → Board → Board
apply_buzzer action b = if action == act_on then buzzer_on b else buzzer_off b

-- A round of `buzzer_thread_fn`.
unfoldable pub buzzer_thread_step : World → World
unfolding apply_buzzer
buzzer_thread_step w = if w.buzzer_cmd.pending == 0 then w else record w {
  buzzer_cmd = record (w.buzzer_cmd) { pending = 0 };
  board = apply_buzzer w.buzzer_cmd.action w.board;
}
