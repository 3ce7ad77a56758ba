-- ===== src/Server/MelodyLaws.antt =====
-- The steps of the melody thread of server/handler.c make up `buzzer_play_melody` of lib/buzzer.c.
use linux_veda_4sensor_tcp_c.Prelude.{
  ℕ, suc, ◌≡◌, subst, ap, ◌∙◌, Bool, false, List, [], ◌∷◌, length, times, arith,
}
use linux_veda_4sensor_tcp_c.Devices.Board.{Board, call, tone_write}
use linux_veda_4sensor_tcp_c.Devices.Buzzer.{
  Note, fur_elise, play_note, play_notes, buzzer_play_melody,
}
use linux_veda_4sensor_tcp_c.Server.State.{World, absent, started, playing}
use linux_veda_4sensor_tcp_c.Server.Melody.{melody_thread_step}

abbrev pub undisturbed : ℕ → Bool
undisturbed i = false

-- The world `v` when the thread that played on the board `b` has ended.
pub record IsPlayed (b : Board) (v : World) : Type 0 where
  pub board : v.board ≡ call (tone_write b.buzzer_pin 0) b
  pub thread : v.melody.thread ≡ absent
  pub running : v.melody.running ≡ 0
  pub flag : v.state.buzzer_state ≡ 0

playing-step :
    (n : Note) (ns : List Note) (w : World)
    → w.melody.thread ≡ playing (n ∷ ns)
    → w.board.buzzer_stop ≡ 0
    → ((melody_thread_step w).melody.thread ≡ playing ns)
      × ((melody_thread_step w).board ≡ play_note n w.board)
      × ((melody_thread_step w).board.buzzer_stop ≡ 0)
unfolding melody_thread_step play_note
playing-step n ns w e z = ground arith

playing-IsPlayed :
    (ns : List Note) (i : ℕ) (w : World)
    → w.melody.thread ≡ playing ns
    → w.board.buzzer_stop ≡ 0
    → IsPlayed (play_notes undisturbed i ns w.board) (times (suc (length ns)) melody_thread_step w)
unfolding melody_thread_step play_notes
playing-IsPlayed [] i w e z = ground arith
playing-IsPlayed (n ∷ ns) i w e z =
    let (e', b, z') = playing-step n ns w e z in
    subst
      (λ c.
        IsPlayed (play_notes undisturbed (suc i) ns c)
          (times (suc (length ns)) melody_thread_step (melody_thread_step w)))
      b (playing-IsPlayed ns (suc i) (melody_thread_step w) e' z')

started-step :
    (w : World)
    → w.melody.thread ≡ started
    → ((melody_thread_step w).melody.thread ≡ playing fur_elise)
      × ((melody_thread_step w).board ≡ record (w.board) { buzzer_stop = 0 })
unfolding melody_thread_step
started-step w e = ground arith

-- A melody that nobody stops takes the steps of its notes, and one each for its start and its end.
-- It leaves the board as one whole call of `buzzer_play_melody` does, `buzzer_state` and the running
-- flag at 0, and no thread.
pub melody_thread_lem :
    (w : World)
    → w.melody.thread ≡ started
    → let v = times (suc (suc (length fur_elise))) melody_thread_step w in
      (v.board ≡ buzzer_play_melody undisturbed w.board)
      × (v.melody.thread ≡ absent)
      × (v.melody.running ≡ 0)
      × (v.state.buzzer_state ≡ 0)
unfolding buzzer_play_melody
melody_thread_lem w e =
    let (s, b) = started-step w e in
    let p = playing-IsPlayed fur_elise 0 (melody_thread_step w) s (ap (λ c. c.buzzer_stop) b) in
    (
      p.board
          ∙ ap
              (λ c.
                call (tone_write (play_notes undisturbed 0 fur_elise c).buzzer_pin 0)
                  (play_notes undisturbed 0 fur_elise c))
              b,
      p.thread,
      p.running,
      p.flag,
    )
