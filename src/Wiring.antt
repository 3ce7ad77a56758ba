-- ===== src/Wiring.antt =====
-- The pins that server/main.c gives to the device libraries.
use linux_veda_4sensor_tcp_c.Prelude.{ℤ, pos, List, [], ◌∷◌}

abbrev pub gpio_led : ℤ
gpio_led = pos 18

abbrev pub gpio_buzzer : ℤ
gpio_buzzer = pos 23

-- The pins of the segments a to g and of the point.
abbrev pub g_seg_pins : List ℤ
g_seg_pins = pos 4 ∷ pos 17 ∷ pos 27 ∷ pos 22 ∷ pos 5 ∷ pos 6 ∷ pos 13 ∷ pos 19 ∷ []
