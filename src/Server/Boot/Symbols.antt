-- ===== src/Server/Boot/Symbols.antt =====
-- The function pointers of server/server.h with the names of lib/ that belong to them, which
-- load_libraries of server/main.c looks up.
use linux_veda_4sensor_tcp_c.Prelude.{ℕ, ◌≡◌, ◌⊎◌, ℤ, pos, ◌==ℤ◌, false, none, List, [], ◌∷◌, map}
use linux_veda_4sensor_tcp_c.Process.Text.{bytes_of}
use linux_veda_4sensor_tcp_c.Server.Text.{library_path}
use linux_veda_4sensor_tcp_c.Server.Boot.Libraries.{
  Target, fp_led_init, fp_led_on, fp_led_off, fp_led_set_brightness, fp_led_cleanup, fp_buzzer_init,
  fp_buzzer_on, fp_buzzer_off, fp_buzzer_play_melody, fp_buzzer_stop_melody, fp_buzzer_cleanup,
  fp_sensor_init, fp_sensor_read, fp_sensor_cleanup, fp_segment_init, fp_segment_display,
  fp_segment_cleanup, Pointers,
}

-- What the libraries call the functions.
abbrev pub symbol_name : Target → List ℕ
symbol_name fp_led_init = bytes_of "led_init"
symbol_name fp_led_on = bytes_of "led_on"
symbol_name fp_led_off = bytes_of "led_off"
symbol_name fp_led_set_brightness = bytes_of "led_set_brightness"
symbol_name fp_led_cleanup = bytes_of "led_cleanup"
symbol_name fp_buzzer_init = bytes_of "buzzer_init"
symbol_name fp_buzzer_on = bytes_of "buzzer_on"
symbol_name fp_buzzer_off = bytes_of "buzzer_off"
symbol_name fp_buzzer_play_melody = bytes_of "buzzer_play_melody"
symbol_name fp_buzzer_stop_melody = bytes_of "buzzer_stop_melody"
symbol_name fp_buzzer_cleanup = bytes_of "buzzer_cleanup"
symbol_name fp_sensor_init = bytes_of "sensor_init"
symbol_name fp_sensor_read = bytes_of "sensor_read"
symbol_name fp_sensor_cleanup = bytes_of "sensor_cleanup"
symbol_name fp_segment_init = bytes_of "segment_init"
symbol_name fp_segment_display = bytes_of "segment_display"
symbol_name fp_segment_cleanup = bytes_of "segment_cleanup"

-- All the variables, in the order of the assignments, the last one first.
abbrev pub all_targets : List Target
all_targets =
    fp_segment_cleanup ∷ fp_segment_display ∷ fp_segment_init ∷ fp_sensor_cleanup ∷ fp_sensor_read
    ∷ fp_sensor_init ∷ fp_buzzer_cleanup ∷ fp_buzzer_stop_melody ∷ fp_buzzer_play_melody
    ∷ fp_buzzer_off ∷ fp_buzzer_on ∷ fp_buzzer_init ∷ fp_led_cleanup ∷ fp_led_set_brightness
    ∷ fp_led_off ∷ fp_led_on ∷ fp_led_init ∷ []

abbrev pub targets : Pointers → List Target
targets ps = map (λ p. p.0) ps

abbrev pub lookups : Pointers → List (ℤ × List ℕ × ℤ)
lookups ps = map (λ p. (p.1, p.2, p.3)) ps

abbrev pub IsNamed : Target × List ℕ → Type 0
IsNamed p = p.1 ≡ symbol_name p.0

-- What was looked up has the variable's own name, on a handle that is not null.
abbrev pub IsOwn : Target × ℤ × List ℕ × ℤ → Type 0
IsOwn p = (p.2 ≡ symbol_name p.0) × ((p.1 ==ℤ pos 0) ≡ false)

abbrev pub onto : List (Target × List ℕ) → List Target → List Target
onto [] acc = acc
onto (p ∷ ps) acc = onto ps (p.0 ∷ acc)

-- The path of a library does not fit its buffer.
abbrev pub TooLong : List ℕ → Type 0
TooLong base =
    (library_path base (bytes_of "led") ≡ none)
    ⊎ (library_path base (bytes_of "buzzer") ≡ none)
    ⊎ (library_path base (bytes_of "cds") ≡ none)
    ⊎ (library_path base (bytes_of "segment") ≡ none)
