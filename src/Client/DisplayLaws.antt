-- ===== src/Client/DisplayLaws.antt =====
-- From the state of the server to the line that client/main.c prints: the query that the client
-- sends, the response of server/handler.c, and its display.
use linux_veda_4sensor_tcp_c.Prelude.{
  ℕ, ◌≡◌, refl, ℤ, pos, negsuc, ◌==◌, leb, if◌then◌else◌, some, arith,
}
use linux_veda_4sensor_tcp_c.Protocol.{
  message, msg_query, dev_led, dev_buzzer, dev_sensor, act_get_status, act_get_lux,
}
use linux_veda_4sensor_tcp_c.Devices.Sensor.{sensor_read}
use linux_veda_4sensor_tcp_c.Server.State.{World, Env}
use linux_veda_4sensor_tcp_c.Server.Commands.{handle_query, respond, lux_response}
use linux_veda_4sensor_tcp_c.Server.Validity.{IsValid}
use linux_veda_4sensor_tcp_c.Client.Display.{
  Line, brightness, state, result, led, buzzer, sensor, blocked, normal, on, off, err, display,
}

-- In a valid state the status menu tells the truth: the client prints ON or OFF as the LED's and
-- the buzzer's flag say, and for the sensor whether it is blocked.
pub status_query-display :
    (env : Env) (w : World)
    → IsValid w
    → let shown =
        λ (device : ℕ). display (respond env (message msg_query device act_get_status 0) w).0 in
      (shown dev_led ≡ some (state led (if w.state.led_state == 0 then off else on)))
      × (shown dev_buzzer ≡ some (state buzzer (if w.state.buzzer_state == 0 then off else on)))
      × (shown dev_sensor
          ≡ some (state sensor (if w.state.sensor_blocked == 0 then normal else blocked)))
unfolding respond handle_query display
status_query-display env w v = ground arith

-- The line for a reading.
abbrev pub lux_line : ℤ → Line
lux_line (negsuc n) = result sensor err
lux_line (pos l) = if leb l 255 then brightness l else result sensor err

-- The brightness that the client prints is the reading, and a reading that failed or is no byte is
-- printed as an error.
pub lux_query-display :
    (env : Env) (w : World)
    → display (respond env (message msg_query dev_sensor act_get_lux 0) w).0
      ≡ some (lux_line (sensor_read env.transfers w.board).0)
unfolding respond handle_query display
lux_query-display env w = shown (sensor_read env.transfers w.board).0
  where
    shown : (lux : ℤ) → display (lux_response lux) ≡ some (lux_line lux)
    shown (negsuc n) = refl
    shown (pos l) = ground arith
