-- ===== src/Server/Boot/Libraries.antt =====
-- load_library, load_symbol and load_libraries of server/main.c.
use linux_veda_4sensor_tcp_c.Prelude.{
  ℕ, ℤ, pos, ◌==ℤ◌, if◌then◌else◌, Option, none, some, List, [], ◌∷◌, ◌++◌,
}
use linux_veda_4sensor_tcp_c.Process.{
  dlopen, dlsym, dlerror, Kernel, Action, call, pure, fail, ◌>>=◌, ◌>>◌,
}
use linux_veda_4sensor_tcp_c.Process.Text.{bytes_of}
use linux_veda_4sensor_tcp_c.Server.Text.{library_path}

abbrev not_opened : Kernel → List ℕ → Action ℤ
not_opened kernel path = do
  call kernel dlerror
  fail kernel (bytes_of "dlopen " ++ path ++ bytes_of ": ")

abbrev pub open_library : Kernel → List ℕ → Option (List ℕ) → Action ℤ
open_library kernel name none =
    fail kernel (bytes_of "library path is too long: " ++ name ++ b'\n' ∷ [])
open_library kernel name (some path) = do
  handle ← call kernel (dlopen path)
  if handle ==ℤ pos 0 then not_opened kernel path else pure handle

unfoldable pub load_library : Kernel → List ℕ → List ℕ → Action ℤ
load_library kernel base name = open_library kernel name (library_path base name)

unfoldable pub load_symbol : Kernel → ℤ → List ℕ → Action ℤ
load_symbol kernel handle name = do
  call kernel dlerror
  symbol ← call kernel (dlsym handle name)
  error ← call kernel dlerror
  if error ==ℤ pos 0 then pure symbol else fail kernel (bytes_of "dlsym " ++ name ++ bytes_of ": ")

-- The variables that ASSIGN_SYMBOL writes to.
pub data Target : Type 0 where
  fp_led_init fp_led_on fp_led_off fp_led_set_brightness fp_led_cleanup : Target
  fp_buzzer_init fp_buzzer_on fp_buzzer_off fp_buzzer_play_melody fp_buzzer_stop_melody
        fp_buzzer_cleanup :
      Target
  fp_sensor_init fp_sensor_read fp_sensor_cleanup fp_segment_init fp_segment_display
        fp_segment_cleanup :
      Target

-- What was written to the variables, with the handle and the name it was looked up by; newest first.
abbrev pub Pointers : Type 0
Pointers = List (Target × ℤ × List ℕ × ℤ)

-- The lines ASSIGN_SYMBOL of one library, each with its variable and its name.
unfoldable pub assign_symbols : Kernel → ℤ → List (Target × List ℕ) → Pointers → Action Pointers
unfolding load_symbol
assign_symbols kernel handle [] pointers = pure pointers
assign_symbols kernel handle ((target, name) ∷ names) pointers = do
  symbol ← load_symbol kernel handle name
  assign_symbols kernel handle names ((target, handle, name, symbol) ∷ pointers)

abbrev pub led_symbols : List (Target × List ℕ)
led_symbols =
    (fp_led_init, bytes_of "led_init")
    ∷ (fp_led_on, bytes_of "led_on")
    ∷ (fp_led_off, bytes_of "led_off")
    ∷ (fp_led_set_brightness, bytes_of "led_set_brightness")
    ∷ (fp_led_cleanup, bytes_of "led_cleanup")
    ∷ []

abbrev pub buzzer_symbols : List (Target × List ℕ)
buzzer_symbols =
    (fp_buzzer_init, bytes_of "buzzer_init")
    ∷ (fp_buzzer_on, bytes_of "buzzer_on")
    ∷ (fp_buzzer_off, bytes_of "buzzer_off")
    ∷ (fp_buzzer_play_melody, bytes_of "buzzer_play_melody")
    ∷ (fp_buzzer_stop_melody, bytes_of "buzzer_stop_melody")
    ∷ (fp_buzzer_cleanup, bytes_of "buzzer_cleanup")
    ∷ []

abbrev pub sensor_symbols : List (Target × List ℕ)
sensor_symbols =
    (fp_sensor_init, bytes_of "sensor_init")
    ∷ (fp_sensor_read, bytes_of "sensor_read")
    ∷ (fp_sensor_cleanup, bytes_of "sensor_cleanup")
    ∷ []

abbrev pub segment_symbols : List (Target × List ℕ)
segment_symbols =
    (fp_segment_init, bytes_of "segment_init")
    ∷ (fp_segment_display, bytes_of "segment_display")
    ∷ (fp_segment_cleanup, bytes_of "segment_cleanup")
    ∷ []

-- The lines of load_libraries for one library.
abbrev pub assign_library :
    Kernel → List ℕ → List ℕ → List (Target × List ℕ) → Pointers → Action Pointers
assign_library kernel base name symbols pointers = do
  handle ← load_library kernel base name
  assign_symbols kernel handle symbols pointers

unfoldable pub load_libraries : Kernel → List ℕ → Action Pointers
load_libraries kernel base = do
  p₁ ← assign_library kernel base (bytes_of "led") led_symbols []
  p₂ ← assign_library kernel base (bytes_of "buzzer") buzzer_symbols p₁
  p₃ ← assign_library kernel base (bytes_of "cds") sensor_symbols p₂
  assign_library kernel base (bytes_of "segment") segment_symbols p₃
