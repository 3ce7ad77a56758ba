-- ===== src/Devices/Readback.antt =====
-- What a pin was last told, read back from the calls: the view in which the libraries of lib/ are
-- specified.
use linux_veda_4sensor_tcp_c.Prelude.{
  ℕ, zero, suc, ◌+◌, ℤ, ◌==ℤ◌, if◌then◌else◌, Option, none, some, List, [], ◌∷◌,
}
use linux_veda_4sensor_tcp_c.Devices.Board.{
  Call, digital_write, pwm_create, pwm_write, pwm_stop, tone_create, tone_write, usleep,
}

-- The duty cycle of a pulsed pin, in percent.
unfoldable pub duty : ℤ → List Call → Option ℕ
duty pin [] = none
duty pin (pwm_write p d ∷ cs) = if p ==ℤ pin then some d else duty pin cs
duty pin (pwm_create p d range ∷ cs) = if p ==ℤ pin then some d else duty pin cs
duty pin (pwm_stop p ∷ cs) = if p ==ℤ pin then none else duty pin cs
duty pin (_ ∷ cs) = duty pin cs

-- The frequency of a tone pin.
unfoldable pub tone : ℤ → List Call → Option ℕ
tone pin [] = none
tone pin (tone_write p f ∷ cs) = if p ==ℤ pin then some f else tone pin cs
tone pin (tone_create p ∷ cs) = if p ==ℤ pin then some 0 else tone pin cs
tone pin (_ ∷ cs) = tone pin cs

-- The level of a digital pin.
unfoldable pub level : ℤ → List Call → Option ℕ
level pin [] = none
level pin (digital_write p l ∷ cs) = if p ==ℤ pin then some l else level pin cs
level pin (_ ∷ cs) = level pin cs

-- The time slept, in microseconds.
unfoldable pub slept : List Call → ℕ
slept [] = 0
slept (usleep t ∷ cs) = t + slept cs
slept (_ ∷ cs) = slept cs

-- The frequencies sounded, newest first, without the silences.
unfoldable pub sounded : List Call → List ℕ
sounded [] = []
sounded (tone_write p zero ∷ cs) = sounded cs
sounded (tone_write p (suc f) ∷ cs) = suc f ∷ sounded cs
sounded (_ ∷ cs) = sounded cs
