-- ===== src/Server/Cancel/Pieces.antt =====
-- `segment_thread_fn` of server/handler.c, with the functions it calls, in pieces: a call that is a
-- cancellation point is the first thing of its piece. Only the calls of `log_event` behind its `open`,
-- and a `send` that comes again for the rest of a message, are points within a piece.
use linux_veda_4sensor_tcp_c.Prelude.{
  ℕ, zero, suc, ◌%◌, ◌==◌, if◌then◌else◌, Bool, true, false, ℤ, pos, negsuc, List, [], ◌∷◌, ◌++◌,
}
use linux_veda_4sensor_tcp_c.Protocol.{
  Message, message, msg_event, dev_segment, dev_buzzer, evt_countdown, evt_alarm_triggered, act_on,
  act_off,
}
use linux_veda_4sensor_tcp_c.Devices.Buzzer.{buzzer_stop_melody}
use linux_veda_4sensor_tcp_c.Server.State.{
  World, Env, MelodyThread, LogEntry, countdown_reached_0, buzzer_auto_off, set_board,
  set_buzzer_state, log_event,
}
use linux_veda_4sensor_tcp_c.Server.Dispatch.{dispatch_buzzer}
use linux_veda_4sensor_tcp_c.Server.Clients.{client_copies}
use linux_veda_4sensor_tcp_c.Server.Melody.{join_melody}
use linux_veda_4sensor_tcp_c.Server.Countdown.{show}

pub data Piece : Type 0 where
  display : (n : ℤ) → Piece  -- with the write of `segment_value`
  copy_all : Piece  -- the first loop of `broadcast_msg`
  send_first : Message → Piece  -- `send`, on the first copy that is open
  close_first : Piece  -- `close`
  take_control release_control : Piece  -- g_melody_control_lock
  tell_melody : Piece  -- the stop flag and `pthread_cancel`
  join_thread : Piece  -- `pthread_join`
  forget_melody : Piece  -- the two writes behind it
  set_buzzer : ℕ → Piece  -- `buzzer_state`
  post_buzzer : ℕ → Piece  -- `dispatch_buzzer`
  own_buzzer : ℕ → Piece  -- the local `buzzer_owned`
  write_log : LogEntry → Piece  -- `open`
  nap : Piece  -- `sleep`

-- The world, the copies of descriptors that are open, whether the thread holds
-- g_melody_control_lock, and its local `buzzer_owned`.
pub record Midway : Type 0 where
  pub world : World
  pub copies : List ℤ
  pub controls : Bool
  pub owned : ℕ

abbrev pub change : (World → World) → Midway → Midway
change g f = record f { world = g f.world }

abbrev pub sent : Message → List ℤ → World → World
sent m [] w = w
sent m (c ∷ cs) w = record w { events = (c, m) ∷ w.events }

abbrev pub behind_first : List ℤ → List ℤ
behind_first [] = []
behind_first (c ∷ cs) = cs

abbrev pub await_melody : Env → World → World
await_melody env w =
    if w.melody.running == 0 then w else join_melody w.melody.thread env.melody_end w

unfoldable pub do_piece : Env → Piece → Midway → Midway
unfolding buzzer_stop_melody client_copies dispatch_buzzer
do_piece env (display n) f = change (show n) f
do_piece env copy_all f = record f { copies = client_copies env.dup f.world.state.client_fds }
do_piece env (send_first m) f = change (sent m f.copies) f
do_piece env close_first f = record f { copies = behind_first f.copies }
do_piece env take_control f = record f { controls = true }
do_piece env release_control f = record f { controls = false }
do_piece env tell_melody f = change (λ w. set_board (buzzer_stop_melody w.board) w) f
do_piece env join_thread f = change (await_melody env) f
do_piece env forget_melody f =
    change
      (λ w. record w {
        melody = record { running = 0; joinable = 0; thread = MelodyThread.absent };
      })
      f
do_piece env (set_buzzer n) f = change (set_buzzer_state n) f
do_piece env (post_buzzer action) f = change (dispatch_buzzer action) f
do_piece env (own_buzzer n) f = record f { owned = n }
do_piece env (write_log e) f = change (log_event e) f
do_piece env nap f = f

unfoldable pub do_pieces : Env → List Piece → Midway → Midway
unfolding do_piece
do_pieces env [] f = f
do_pieces env (p ∷ ps) f = do_pieces env ps (do_piece env p f)

-- The second loop of `broadcast_msg`, over these copies.
unfoldable pub each_copy : Message → List ℤ → List Piece
each_copy m [] = []
each_copy m (c ∷ cs) = send_first m ∷ (close_first ∷ each_copy m cs)

unfoldable pub stop_pieces : (joinable : ℕ) → List Piece
stop_pieces joinable =
    if joinable == 0
    then take_control ∷ (release_control ∷ [])
    else take_control ∷ (tell_melody ∷ (join_thread ∷ (forget_melody ∷ (release_control ∷ []))))

-- A round of the loop for `count`, with the `sleep` that ends it. That for 0 goes on to its first
-- `sleep`; the copies are those that `dup` makes.
unfoldable pub round_pieces : (copies : List ℤ) (joinable count : ℕ) → List Piece
unfolding each_copy stop_pieces
round_pieces cs joinable (suc count) =
    let evt = message msg_event dev_segment evt_countdown (suc count % 256) in
    display (pos (suc count)) ∷ (copy_all ∷ (each_copy evt cs ++ (nap ∷ [])))
round_pieces cs joinable zero =
    let evt = message msg_event dev_segment evt_countdown 0 in
    let alarm_evt = message msg_event dev_buzzer evt_alarm_triggered 0 in
    display (pos 0)
    ∷ (copy_all
        ∷ (each_copy evt cs
            ++ (stop_pieces joinable
                ++ (set_buzzer 1
                    ∷ (post_buzzer act_on
                        ∷ (own_buzzer 1
                            ∷ (copy_all
                                ∷ (each_copy alarm_evt cs
                                    ++ (write_log countdown_reached_0 ∷ (nap ∷ []))))))))))

-- What follows the round for 0.
unfoldable pub late_pieces : List Piece
late_pieces =
    display (negsuc 0)
    ∷ (nap
        ∷ (post_buzzer act_off
            ∷ (own_buzzer 0 ∷ (set_buzzer 0 ∷ (write_log buzzer_auto_off ∷ [])))))

-- The cancellation points.
abbrev pub is_point : Piece → Bool
is_point (send_first m) = true
is_point close_first = true
is_point join_thread = true
is_point (write_log e) = true
is_point nap = true
is_point _ = false

-- Those under the lock, and those where copies are open.
abbrev pub is_join : Piece → Bool
is_join join_thread = true
is_join _ = false

abbrev pub in_broadcast : Piece → Bool
in_broadcast (send_first m) = true
in_broadcast close_first = true
in_broadcast _ = false

-- Where the thread starts a round.
abbrev pub before : World → Midway
before w = record { world = w; copies = []; controls = false; owned = 0 }
