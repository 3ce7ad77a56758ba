-- ===== src/Devices/Tests.antt =====
-- Runs of lib/*.c on concrete boards, and the theorems at these.
use linux_veda_4sensor_tcp_c.Prelude.{ℕ, ◌≡◌, refl, ltb, pos, negsuc, Bool, [], ◌∷◌, length}
use linux_veda_4sensor_tcp_c.Wiring.{g_seg_pins}
use linux_veda_4sensor_tcp_c.Devices.Board.{Board, pwm_write}
use linux_veda_4sensor_tcp_c.Devices.Buzzer.{fur_elise, buzzer_play_melody}
use linux_veda_4sensor_tcp_c.Devices.Sensor.{Transfers}
use linux_veda_4sensor_tcp_c.Devices.Readback.{slept, sounded}
use linux_veda_4sensor_tcp_c.Devices.BuzzerLaws.{total_ms}

abbrev wired : Board
wired = record {
  led_pin = pos 18;
  buzzer_pin = pos 23;
  buzzer_stop = 0;
  sensor_fd = pos 3;
  segment_pins = g_seg_pins;
  calls = pwm_write (pos 18) 25 ∷ [];
}

-- The flag is set while the second note sounds.
abbrev stop_at_two : ℕ → Bool
stop_at_two i = ltb 1 i

-- Two notes are heard, E5 and D#5, of 0.3 s each.
stopped_after_two :
    (sounded (buzzer_play_melody stop_at_two wired).calls ≡ 622 ∷ 659 ∷ [])
    × (slept (buzzer_play_melody stop_at_two wired).calls ≡ 600_000)
unfolding buzzer_play_melody fur_elise sounded slept
stopped_after_two = (refl, refl)

-- The whole tune takes 14.1 s.
whole_tune : (length fur_elise ≡ 40) × (total_ms fur_elise ≡ 14_100)
unfolding fur_elise
whole_tune = (refl, refl)

abbrev half_read : Transfers
half_read = record { write = pos 0; stale = negsuc 4; fresh = pos 90 }
