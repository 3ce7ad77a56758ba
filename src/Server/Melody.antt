-- ===== src/Server/Melody.antt =====
-- The melody thread of server/handler.c, from its start to its end, and its control.
use linux_veda_4sensor_tcp_c.Prelude.{ℕ, ◌==◌, if◌then◌else◌, [], ◌∷◌}
use linux_veda_4sensor_tcp_c.Devices.Board.{call, tone_write}
use linux_veda_4sensor_tcp_c.Devices.Buzzer.{fur_elise, play_note, buzzer_stop_melody}
use linux_veda_4sensor_tcp_c.Server.State.{
  World, MelodyThread, absent, started, playing, MelodyEnd, cancelled, returned, Env, set_board,
  set_buzzer_state,
}

-- `melody_cleanup`, the last thing that a cancelled thread does.
unfoldable pub melody_cleanup : World → World
unfolding buzzer_stop_melody
melody_cleanup w =
    let w₁ = set_buzzer_state 0 (set_board (buzzer_stop_melody w.board) w) in
    record w₁ { melody = record (w₁.melody) { running = 0; thread = absent } }

-- The last call of `buzzer_play_melody`, and the lines of `melody_thread_fn` behind it.
unfoldable pub melody_return : World → World
melody_return w =
    let w₁ = set_buzzer_state 0 (set_board (call (tone_write w.board.buzzer_pin 0) w.board) w) in
    record w₁ { melody = record (w₁.melody) { running = 0; thread = absent } }

abbrev set_melody_thread : MelodyThread → World → World
set_melody_thread t w = record w { melody = record (w.melody) { thread = t } }

-- A step of the thread: the reset of the stop flag, then a test of the flag with the note behind it.
abbrev melody_thread_from : MelodyThread → World → World
melody_thread_from absent w = w
melody_thread_from started w =
    set_melody_thread (playing fur_elise) (set_board (record (w.board) { buzzer_stop = 0 }) w)
melody_thread_from (playing []) w = melody_return w
melody_thread_from (playing (n ∷ ns)) w =
    if w.board.buzzer_stop == 0
    then set_melody_thread (playing ns) (set_board (play_note n w.board) w)
    else melody_return w

unfoldable pub melody_thread_step : World → World
unfolding melody_return
melody_thread_step w = melody_thread_from w.melody.thread w

abbrev pub end_melody : MelodyEnd → World → World
end_melody cancelled w = melody_cleanup w
end_melody returned w = melody_return w

-- `pthread_cancel` and `pthread_join`: a thread that is still there ends first, as `e` says. The
-- store of 0 in `g_melody_running` is the last thing a thread does, so one that has done it is gone.
abbrev pub join_melody : MelodyThread → MelodyEnd → World → World
join_melody absent e w = w
join_melody started e w = end_melody e w
join_melody (playing ns) e w = end_melody e w

unfoldable pub stop_melody_locked : Env → World → World
unfolding melody_cleanup melody_return buzzer_stop_melody
stop_melody_locked env w =
    if w.melody.joinable == 0
    then w
    else let w₁ = set_board (buzzer_stop_melody w.board) w in
      let w₂ =
        if w.melody.running == 0 then w₁ else join_melody w.melody.thread env.melody_end w₁ in
      record w₂ { melody = record { running = 0; joinable = 0; thread = absent } }

-- The control lock is held over the whole call.
unfoldable pub stop_melody_thread : Env → World → World
unfolding stop_melody_locked
stop_melody_thread env w = stop_melody_locked env w

-- The result is that of `pthread_create`.
unfoldable pub start_melody_thread : Env → World → ℕ × World
unfolding stop_melody_locked
start_melody_thread env w =
    let w₁ = stop_melody_locked env w in
    if env.create_melody == 0
    then (
      env.create_melody,
      record w₁ { melody = record { running = 1; joinable = 1; thread = started } },
    )
    else (env.create_melody, record w₁ { melody = record (w₁.melody) { running = 0 } })
