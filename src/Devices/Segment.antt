-- ===== src/Devices/Segment.antt =====
-- lib/segment.c: a common-anode digit, so a segment is lit by a low pin.
use linux_veda_4sensor_tcp_c.Prelude.{
  ℕ, zero, suc, ◌-◌, ◌/◌, ◌%◌, ◌^◌, ℤ, pos, negsuc, is_neg, ltb, ◌==◌, if◌then◌else◌, List, [], ◌∷◌,
}
use linux_veda_4sensor_tcp_c.Devices.Board.{Board, call, pin_mode_output, digital_write}

abbrev pub high : ℕ
high = 1

-- SEG_MAP[digit] for the digits 0 to 9: bit 7 is segment a, bit 1 is g, bit 0 the point.
unfoldable pub seg_map : ℕ → ℕ
seg_map zero = 0b11111100
seg_map (suc zero) = 0b01100000
seg_map (suc (suc zero)) = 0b11011010
seg_map (suc (suc (suc zero))) = 0b11110010
seg_map (suc (suc (suc (suc zero)))) = 0b01100110
seg_map (suc (suc (suc (suc (suc zero))))) = 0b10110110
seg_map (suc (suc (suc (suc (suc (suc zero)))))) = 0b10111110
seg_map (suc (suc (suc (suc (suc (suc (suc zero))))))) = 0b11100000
seg_map (suc (suc (suc (suc (suc (suc (suc (suc zero)))))))) = 0b11111110
seg_map (suc (suc (suc (suc (suc (suc (suc (suc (suc n))))))))) = 0b11110110

-- The loop that turns every pin of the list off.
unfoldable pub all_high : List ℤ → Board → Board
all_high [] b = b
all_high (p ∷ ps) b = all_high ps (call (digital_write p high) b)

-- `!bit` for bit 7 - i of the pattern.
unfoldable pub level_of : ℕ → ℕ → ℕ
level_of pattern i = if pattern / 2 ^ (7 - i) % 2 == 0 then 1 else 0

-- The loop that writes a pattern, from pin `i` on.
unfoldable pub write_pattern : ℕ → ℕ → List ℤ → Board → Board
unfolding level_of
write_pattern pattern i [] b = b
write_pattern pattern i (p ∷ ps) b =
    write_pattern pattern (suc i) ps (call (digital_write p (level_of pattern i)) b)

unfoldable pub init_pins : List ℤ → Board → Board
init_pins [] b = b
init_pins (p ∷ ps) b = init_pins ps (call (digital_write p high) (call (pin_mode_output p) b))

-- `setup` is the result of `wiringPiSetupGpio`; `gpio_pins` has eight entries.
unfoldable pub segment_init : ℤ → List ℤ → Board → ℤ × Board
unfolding init_pins
segment_init setup gpio_pins b =
    if is_neg setup
    then (negsuc 0, b)
    else (pos 0, init_pins gpio_pins (record b { segment_pins = gpio_pins }))

unfoldable pub segment_display : ℤ → Board → Board
unfolding all_high write_pattern seg_map
segment_display (negsuc n) b = all_high b.segment_pins b
segment_display (pos digit) b =
    if ltb 9 digit then b else write_pattern (seg_map digit) 0 b.segment_pins b

unfoldable pub segment_cleanup : Board → Board
unfolding all_high
segment_cleanup b = all_high b.segment_pins b
