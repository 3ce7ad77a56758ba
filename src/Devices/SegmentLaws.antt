-- ===== src/Devices/SegmentLaws.antt =====
-- What the digit of lib/segment.c shows, on the pins that server/main.c gives it.
use linux_veda_4sensor_tcp_c.Prelude.{
  ℕ, zero, suc, ◌<◌, ◌≡◌, refl, sym, subst, inl, inr, ltb, leb, Bool-cases, ℤ, pos, negsuc,
  if◌then◌else◌, true, false, Option, some, List, [], ◌∷◌, map, arith,
}
use linux_veda_4sensor_tcp_c.Wiring.{g_seg_pins}
use linux_veda_4sensor_tcp_c.Devices.Board.{Call, Board}
use linux_veda_4sensor_tcp_c.Devices.Segment.{segment_display, all_high, write_pattern, seg_map}
use linux_veda_4sensor_tcp_c.Devices.Readback.{level}

-- The levels of the eight pins.
unfoldable pub glass : List Call → List (Option ℕ)
unfolding level
glass cs = map (λ p. level p cs) g_seg_pins

-- A segment is lit by a low pin.
abbrev lit : Option ℕ
lit = some 0

abbrev dark : Option ℕ
dark = some 1

-- The usual shapes of the digits: the lit segments among a b c d e f g, and no point.
abbrev pub shape : ℕ → List (Option ℕ)
shape zero = lit ∷ lit ∷ lit ∷ lit ∷ lit ∷ lit ∷ dark ∷ dark ∷ []
shape (suc zero) = dark ∷ lit ∷ lit ∷ dark ∷ dark ∷ dark ∷ dark ∷ dark ∷ []
shape (suc (suc zero)) = lit ∷ lit ∷ dark ∷ lit ∷ lit ∷ dark ∷ lit ∷ dark ∷ []
shape (suc (suc (suc zero))) = lit ∷ lit ∷ lit ∷ lit ∷ dark ∷ dark ∷ lit ∷ dark ∷ []
shape (suc (suc (suc (suc zero)))) = dark ∷ lit ∷ lit ∷ dark ∷ dark ∷ lit ∷ lit ∷ dark ∷ []
shape (suc (suc (suc (suc (suc zero))))) = lit ∷ dark ∷ lit ∷ lit ∷ dark ∷ lit ∷ lit ∷ dark ∷ []
shape (suc (suc (suc (suc (suc (suc zero)))))) =
    lit ∷ dark ∷ lit ∷ lit ∷ lit ∷ lit ∷ lit ∷ dark ∷ []
shape (suc (suc (suc (suc (suc (suc (suc zero))))))) =
    lit ∷ lit ∷ lit ∷ dark ∷ dark ∷ dark ∷ dark ∷ dark ∷ []
shape (suc (suc (suc (suc (suc (suc (suc (suc zero)))))))) =
    lit ∷ lit ∷ lit ∷ lit ∷ lit ∷ lit ∷ lit ∷ dark ∷ []
shape (suc (suc (suc (suc (suc (suc (suc (suc (suc n))))))))) =
    lit ∷ lit ∷ lit ∷ lit ∷ dark ∷ lit ∷ lit ∷ dark ∷ []

abbrev pub blank : List (Option ℕ)
blank = dark ∷ dark ∷ dark ∷ dark ∷ dark ∷ dark ∷ dark ∷ dark ∷ []

-- On the pins as `segment_init` got them, for any calls before.
glass-pattern :
    (d : ℕ) (b : Board) → d < 10 → glass (write_pattern (seg_map d) 0 g_seg_pins b).calls ≡ shape d
unfolding glass write_pattern seg_map
glass-pattern zero b h = refl
glass-pattern (suc zero) b h = refl
glass-pattern (suc (suc zero)) b h = refl
glass-pattern (suc (suc (suc zero))) b h = refl
glass-pattern (suc (suc (suc (suc zero)))) b h = refl
glass-pattern (suc (suc (suc (suc (suc zero))))) b h = refl
glass-pattern (suc (suc (suc (suc (suc (suc zero)))))) b h = refl
glass-pattern (suc (suc (suc (suc (suc (suc (suc zero))))))) b h = refl
glass-pattern (suc (suc (suc (suc (suc (suc (suc (suc zero)))))))) b h = refl
glass-pattern (suc (suc (suc (suc (suc (suc (suc (suc (suc zero))))))))) b h = refl
glass-pattern (suc (suc (suc (suc (suc (suc (suc (suc (suc (suc d)))))))))) b h =
    absurd (omega arith)

glass-all_high : (b : Board) → glass (all_high g_seg_pins b).calls ≡ blank
unfolding glass all_high
glass-all_high b = refl

-- What the digit is to show after a request, when it showed `g`.
abbrev pub shown : ℤ → List (Option ℕ) → List (Option ℕ)
shown (negsuc n) g = blank
shown (pos d) g = if leb d 9 then shape d else g

-- On the pins of the server, `segment_display` shows the shape of a digit from 0 to 9, nothing
-- for a negative number, and leaves the digit as it was for a number above 9; all eight pins are
-- decided by the request alone in the first two cases, whatever was written before.
pub segment_display-shown :
    (d : ℤ) (b : Board)
    → b.segment_pins ≡ g_seg_pins
    → glass (segment_display d b).calls ≡ shown d (glass b.calls)
unfolding segment_display
segment_display-shown (negsuc n) b pins =
    subst (λ ps. glass (all_high ps b).calls ≡ blank) (sym pins) (glass-all_high b)
segment_display-shown (pos d) b pins = elim (Bool-cases (ltb 9 d)) [
  | inl big ↦ let out : leb d 9 ≡ false = ground arith in rw (big, out)
  | inr small ↦
      let in_range : leb d 9 ≡ true = ground arith in
      rw (small, in_range)
        (subst (λ ps. glass (write_pattern (seg_map d) 0 ps b).calls ≡ shape d) (sym pins)
          (glass-pattern d b (ground arith)))
]
