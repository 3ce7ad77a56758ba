-- ===== src/Devices/BuzzerLaws.antt =====
-- What is heard of lib/buzzer.c.
use linux_veda_4sensor_tcp_c.Prelude.{
  ℕ, zero, suc, ◌+◌, ◌*◌, ◌≡◌, refl, ℤ, ==ℤ_refl, Bool, Bool-cases, if◌then◌else◌, inl, inr, some,
  List, [], ◌∷◌, length, take, arith,
}
use linux_veda_4sensor_tcp_c.Devices.Board.{Call, tone_write, Board}
use linux_veda_4sensor_tcp_c.Devices.Buzzer.{
  Note, fur_elise, play_note, play_notes, buzzer_play_melody,
}
use linux_veda_4sensor_tcp_c.Devices.Readback.{tone, slept, sounded}

-- How many of `n` notes are played from note `i` on, when `stopped` says where the flag is found.
abbrev pub played : (ℕ → Bool) → ℕ → ℕ → ℕ
played stopped i zero = 0
played stopped i (suc n) = let more = played stopped (suc i) n in if stopped i then 0 else suc more

abbrev pub sound : ℕ → List ℕ → List ℕ
sound zero fs = fs
sound (suc f) fs = suc f ∷ fs

-- The frequencies of notes, newest first, in front of those heard before; a rest is silent.
abbrev pub heard : List Note → List ℕ → List ℕ
heard [] fs = fs
heard (n ∷ ns) fs = heard ns (sound n.freq fs)

abbrev pub total_ms : List Note → ℕ
total_ms [] = 0
total_ms (n ∷ ns) = n.ms + total_ms ns

slept-play_note : (n : Note) (b : Board) → slept (play_note n b).calls ≡ 1000 * n.ms + slept b.calls
unfolding play_note slept
slept-play_note n b = omega arith

play_notes-slept :
    (stopped : ℕ → Bool) (i : ℕ) (ns : List Note) (b : Board)
    → slept (play_notes stopped i ns b).calls
      ≡ 1000 * total_ms (take (played stopped i (length ns)) ns) + slept b.calls
unfolding play_notes
play_notes-slept stopped i [] b = omega arith
play_notes-slept stopped i (n ∷ ns) b = elim (Bool-cases (stopped i)) [
  | inl e ↦ rw (e, play_notes) (omega arith)
  | inr e ↦
      rw (e, play_notes)
        (omega (arith, play_notes-slept stopped (suc i) ns (play_note n b), slept-play_note n b))
]

sounded-tone_write :
    (p : ℤ) (f : ℕ) (cs : List Call) → sounded (tone_write p f ∷ cs) ≡ sound f (sounded cs)
unfolding sounded
sounded-tone_write p zero cs = refl
sounded-tone_write p (suc f) cs = refl

sounded-play_note :
    (n : Note) (b : Board) → sounded (play_note n b).calls ≡ sound n.freq (sounded b.calls)
unfolding play_note sounded
sounded-play_note n b = sounded-tone_write b.buzzer_pin n.freq b.calls

play_notes-sounded :
    (stopped : ℕ → Bool) (i : ℕ) (ns : List Note) (b : Board)
    → sounded (play_notes stopped i ns b).calls
      ≡ heard (take (played stopped i (length ns)) ns) (sounded b.calls)
unfolding play_notes
play_notes-sounded stopped i [] b = refl
play_notes-sounded stopped i (n ∷ ns) b = elim (Bool-cases (stopped i)) [
  | inl e ↦ rw (e, play_notes)
  | inr e ↦
      rw (e, play_notes)
        (rw (sounded-play_note n b) at (play_notes-sounded stopped (suc i) ns (play_note n b)))
]

-- A call of `buzzer_play_melody` during which the stop flag is first found set before note k (or
-- never: k is then the length of the tune) plays exactly the first k notes of the tune, each for its full time, and
-- leaves the buzzer silent.
pub buzzer_play_melody_lem :
    (stopped : ℕ → Bool) (b : Board)
    → let after = buzzer_play_melody stopped b in
      let notes = take (played stopped 0 (length fur_elise)) fur_elise in
      (sounded after.calls ≡ heard notes (sounded b.calls))
      × (slept after.calls ≡ 1000 * total_ms notes + slept b.calls)
      × (tone after.buzzer_pin after.calls ≡ some 0)
unfolding buzzer_play_melody sounded slept tone
buzzer_play_melody_lem stopped b = (
  play_notes-sounded stopped 0 fur_elise (record b { buzzer_stop = 0 }),
  play_notes-slept stopped 0 fur_elise (record b { buzzer_stop = 0 }),
  rw (==ℤ_refl (play_notes stopped 0 fur_elise (record b { buzzer_stop = 0 })).buzzer_pin) refl,
)
