-- ===== src/Devices/Led.antt =====
-- lib/led.c.
use linux_veda_4sensor_tcp_c.Prelude.{ℕ, ℤ, pos, negsuc, is_neg, ◌==◌, if◌then◌else◌}
use linux_veda_4sensor_tcp_c.Protocol.{brightness_low, brightness_mid, brightness_high}
use linux_veda_4sensor_tcp_c.Devices.Board.{
  Board, call, pin_mode_output, pwm_create, pwm_write, pwm_stop,
}

-- `setup` is the result of `wiringPiSetupGpio`.
unfoldable pub led_init : ℤ → ℤ → Board → ℤ × Board
led_init setup gpio_pin b = if is_neg setup then (negsuc 0, b) else (
  pos 0,
  call (pwm_create gpio_pin 0 100)
      (call (pin_mode_output gpio_pin) (record b { led_pin = gpio_pin })),
)

unfoldable pub led_on : Board → Board
led_on b = call (pwm_write b.led_pin 100) b

unfoldable pub led_off : Board → Board
led_off b = call (pwm_write b.led_pin 0) b

-- The `switch` of `led_set_brightness`.
unfoldable pub duty_of : ℕ → ℕ
duty_of level =
    if level == brightness_low
    then 25
    else if level == brightness_mid
    then 50
    else if level == brightness_high
    then 100
    else 0

unfoldable pub led_set_brightness : ℕ → Board → Board
unfolding duty_of
led_set_brightness level b = call (pwm_write b.led_pin (duty_of level)) b

unfoldable pub led_cleanup : Board → Board
led_cleanup b = call (pwm_stop b.led_pin) (call (pwm_write b.led_pin 0) b)
