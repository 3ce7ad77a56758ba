-- ===== src/Devices/LedLaws.antt =====
-- What the LED of lib/led.c does, as the duty cycle of its pin.
use linux_veda_4sensor_tcp_c.Prelude.{ℕ, ◌≡◌, refl, ==ℤ_refl, some}
use linux_veda_4sensor_tcp_c.Devices.Board.{Board}
use linux_veda_4sensor_tcp_c.Devices.Led.{duty_of, led_on, led_off, led_set_brightness}
use linux_veda_4sensor_tcp_c.Devices.Readback.{duty}

pub led_on-duty : (b : Board) → duty (led_on b).led_pin (led_on b).calls ≡ some 100
unfolding led_on duty
led_on-duty b = rw (==ℤ_refl b.led_pin) refl

pub led_off-duty : (b : Board) → duty (led_off b).led_pin (led_off b).calls ≡ some 0
unfolding led_off duty
led_off-duty b = rw (==ℤ_refl b.led_pin) refl

pub led_set_brightness-duty :
    (l : ℕ) (b : Board)
    → duty (led_set_brightness l b).led_pin (led_set_brightness l b).calls ≡ some (duty_of l)
unfolding led_set_brightness duty
led_set_brightness-duty l b = rw (==ℤ_refl b.led_pin) refl
