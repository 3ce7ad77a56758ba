-- ===== src/Devices/Buzzer.antt =====
-- lib/buzzer.c.
use linux_veda_4sensor_tcp_c.Prelude.{
  ℕ, suc, ◌*◌, ℤ, pos, negsuc, is_neg, Bool, true, false, if◌then◌else◌, List, [], ◌∷◌,
}
use linux_veda_4sensor_tcp_c.Devices.Board.{Board, call, tone_create, tone_write, usleep}

abbrev pub buzzer_freq : ℕ
buzzer_freq = 1000

pub record Note : Type 0 where
  pub freq : ℕ
  pub ms : ℕ

-- Durations: eighth, quarter and dotted quarter.
abbrev eighth : ℕ → Note
eighth f = record { freq = f; ms = 300 }

abbrev quarter : ℕ → Note
quarter f = record { freq = f; ms = 600 }

abbrev dotted_quarter : ℕ → Note
dotted_quarter f = record { freq = f; ms = 900 }

abbrev rest : ℕ
rest = 0

abbrev c4 : ℕ
c4 = 262

abbrev e4 : ℕ
e4 = 330

abbrev gs4 : ℕ
gs4 = 415

abbrev a4 : ℕ
a4 = 440

abbrev b4 : ℕ
b4 = 494

abbrev c5 : ℕ
c5 = 523

abbrev d5 : ℕ
d5 = 587

abbrev ds5 : ℕ
ds5 = 622

abbrev e5 : ℕ
e5 = 659

unfoldable pub fur_elise : List Note
fur_elise =
    eighth e5
    ∷ eighth ds5
    ∷ eighth e5
    ∷ eighth ds5
    ∷ eighth e5
    ∷ eighth b4
    ∷ eighth d5
    ∷ eighth c5
    ∷ quarter a4
    ∷ eighth rest
    ∷ eighth c4
    ∷ eighth e4
    ∷ eighth a4
    ∷ quarter b4
    ∷ eighth rest
    ∷ eighth e4
    ∷ eighth gs4
    ∷ eighth b4
    ∷ quarter c5
    ∷ eighth rest
    ∷ eighth e4
    ∷ eighth e5
    ∷ eighth ds5
    ∷ eighth e5
    ∷ eighth ds5
    ∷ eighth e5
    ∷ eighth b4
    ∷ eighth d5
    ∷ eighth c5
    ∷ quarter a4
    ∷ eighth rest
    ∷ eighth c4
    ∷ eighth e4
    ∷ eighth a4
    ∷ quarter b4
    ∷ eighth rest
    ∷ eighth e4
    ∷ eighth c5
    ∷ eighth b4
    ∷ dotted_quarter a4
    ∷ []

-- `setup` is the result of `wiringPiSetupGpio`.
unfoldable pub buzzer_init : ℤ → ℤ → Board → ℤ × Board
buzzer_init setup gpio_pin b =
    if is_neg setup
    then (negsuc 0, b)
    else (pos 0, call (tone_create gpio_pin) (record b { buzzer_pin = gpio_pin }))

unfoldable pub buzzer_on : Board → Board
buzzer_on b = call (tone_write b.buzzer_pin buzzer_freq) b

unfoldable pub buzzer_off : Board → Board
buzzer_off b = call (tone_write b.buzzer_pin 0) (record b { buzzer_stop = 1 })

-- One pass of the loop of `buzzer_play_melody`.
unfoldable pub play_note : Note → Board → Board
play_note n b = call (usleep (n.ms * 50)) (
    call (tone_write b.buzzer_pin 0)
      (call (usleep (n.ms * 950)) (call (tone_write b.buzzer_pin n.freq) b)))

-- The loop from note `i` on. `stopped i` says whether another thread has set `g_stop` by the time
-- of the test before note `i`, which then finds it set.
unfoldable pub play_notes : (ℕ → Bool) → ℕ → List Note → Board → Board
unfolding play_note
play_notes stopped i [] b = b
play_notes stopped i (n ∷ ns) b = elim (stopped i) [
  | true ↦ record b { buzzer_stop = 1 }
  | false ↦ play_notes stopped (suc i) ns (play_note n b)
]

unfoldable pub buzzer_play_melody : (ℕ → Bool) → Board → Board
unfolding play_notes
buzzer_play_melody stopped b =
    let played = play_notes stopped 0 fur_elise (record b { buzzer_stop = 0 }) in
    call (tone_write played.buzzer_pin 0) played

unfoldable pub buzzer_stop_melody : Board → Board
buzzer_stop_melody b = call (tone_write b.buzzer_pin 0) (record b { buzzer_stop = 1 })

unfoldable pub buzzer_cleanup : Board → Board
buzzer_cleanup b = call (tone_write b.buzzer_pin 0) (record b { buzzer_stop = 1 })
