-- ===== src/Server/Cancel/Note.antt =====
-- The melody thread of server/handler.c, cancelled within a note of lib/buzzer.c.
use linux_veda_4sensor_tcp_c.Prelude.{◌*◌, ◌≡◌, refl, ==ℤ_refl, some}
use linux_veda_4sensor_tcp_c.Devices.Board.{Board, call, tone_write, usleep}
use linux_veda_4sensor_tcp_c.Devices.Buzzer.{Note, play_note, buzzer_stop_melody}
use linux_veda_4sensor_tcp_c.Devices.Readback.{tone}
use linux_veda_4sensor_tcp_c.Server.State.{World, MelodyThread, set_board}
use linux_veda_4sensor_tcp_c.Server.Melody.{melody_cleanup}

-- The two calls of `usleep`, which are the cancellation points.
pub data NotePoint : Type 0 where
  sounding resting : NotePoint

-- What a note has done where it comes to such a point.
unfoldable pub cut_note : NotePoint → Note → Board → Board
cut_note sounding n b = call (tone_write b.buzzer_pin n.freq) b
cut_note resting n b =
    call (tone_write b.buzzer_pin 0)
      (call (usleep (n.ms * 950)) (call (tone_write b.buzzer_pin n.freq) b))

-- The whole note goes on from the second point.
pub cut_note_lem :
    (n : Note) (b : Board) → play_note n b ≡ call (usleep (n.ms * 50)) (cut_note resting n b)
unfolding play_note cut_note
cut_note_lem n b = refl

-- Cancelled at either point, the thread leaves the buzzer silent, its flag 0, and is gone.
pub cut_note-IsQuiet :
    (p : NotePoint) (n : Note) (w : World)
    → let v = melody_cleanup (set_board (cut_note p n w.board) w) in
      (tone w.board.buzzer_pin v.board.calls ≡ some 0)
      × (v.board.buzzer_stop ≡ 1)
      × (v.state.buzzer_state ≡ 0)
      × (v.melody.thread ≡ MelodyThread.absent)
unfolding melody_cleanup buzzer_stop_melody cut_note tone
cut_note-IsQuiet sounding n w = rw (==ℤ_refl w.board.buzzer_pin) (refl, refl, refl, refl)
cut_note-IsQuiet resting n w = rw (==ℤ_refl w.board.buzzer_pin) (refl, refl, refl, refl)
