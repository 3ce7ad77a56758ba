-- ===== src/Devices/Board.antt =====
-- The static variables of lib/led.c, lib/buzzer.c, lib/cds.c and lib/segment.c, and the calls that
-- these files make of the hardware libraries.
use linux_veda_4sensor_tcp_c.Prelude.{ℕ, ℤ, List, ◌∷◌}

pub data Call : Type 0 where
  pin_mode_output : (pin : ℤ) → Call  -- pinMode(pin, OUTPUT)
  digital_write : (pin : ℤ) (level : ℕ) → Call
  pwm_create : (pin : ℤ) (initial range : ℕ) → Call
  pwm_write : (pin : ℤ) (duty : ℕ) → Call
  pwm_stop : (pin : ℤ) → Call
  tone_create : (pin : ℤ) → Call
  tone_write : (pin : ℤ) (frequency : ℕ) → Call
  i2c_write : (fd : ℤ) (byte : ℕ) → Call
  i2c_read : (fd : ℤ) → Call
  usleep : (microseconds : ℕ) → Call

pub record Board : Type 0 where
  pub led_pin : ℤ  -- g_pin of lib/led.c
  pub buzzer_pin : ℤ  -- g_pin of lib/buzzer.c
  pub buzzer_stop : ℕ  -- g_stop of lib/buzzer.c
  pub sensor_fd : ℤ  -- g_fd of lib/cds.c
  pub segment_pins : List ℤ  -- g_pins of lib/segment.c
  pub calls : List Call

abbrev pub call : Call → Board → Board
call c b = record b { calls = c ∷ b.calls }
