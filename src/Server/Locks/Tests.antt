-- ===== src/Server/Locks/Tests.antt =====
-- The locks of server/ in two rounds at once: a countdown at 0, and a client that turns the buzzer on
-- while a melody plays.
use linux_veda_4sensor_tcp_c.Prelude.{
  All, ◌+◌, ◌≡◌, refl, pos, true, false, List, [], ◌∷◌, put, arith,
}
use linux_veda_4sensor_tcp_c.Protocol.{Message, message, msg_cmd, dev_buzzer, act_on}
use linux_veda_4sensor_tcp_c.Server.Locks.Programs.{
  Found, Op, lock, unlock, join, melody_control, melody_tid, state, buzzer, countdown, request,
  command, buzzer_command, stop_melody, countdown_cleanup,
}
use linux_veda_4sensor_tcp_c.Server.Locks.Run.{
  Thread, Go, Goes, stay, more, go, begin, Steps, start, next, segment_round, client_round,
  melody_round, at_rest, enabled, Nothing, remaining,
}
use linux_veda_4sensor_tcp_c.Server.Locks.Progress.{no_deadlock}
use linux_veda_4sensor_tcp_c.Server.Locks.Finish.{rounds_end, Done}
use linux_veda_4sensor_tcp_c.Server.Locks.Lost.{control_lock_lost}

abbrev playing : Found
playing = record {
  melody_joinable = true;
  segment_joinable = true;
  created = true;
  already = false;
  lux = pos 0;
}

abbrev buzzer_on : Message
buzzer_on = message msg_cmd dev_buzzer act_on 0

-- A melody plays, its thread before its last lock.
abbrev one_round : List Thread
one_round = put 0 (record { holds = []; rest = lock state ∷ unlock state ∷ [] }) (at_rest 7)

abbrev two_rounds : List Thread
two_rounds = put 1 (record { holds = []; rest = countdown playing 0 }) one_round

abbrev three_rounds : List Thread
three_rounds = put 6 (record { holds = []; rest = request playing buzzer_on }) two_rounds

three_begin : Steps Nothing (at_rest 7) three_rounds
three_begin =
    next
      (next (next start (begin 0 [] (lock state ∷ unlock state ∷ []) refl melody_round))
        (begin 1 [] (countdown playing 0) refl (segment_round playing 0)))
      (begin 6 [] (request playing buzzer_on) refl (client_round playing buzzer_on (omega arith)))

request_runs :
    request playing buzzer_on
    ≡ lock melody_control
      ∷ (join melody_tid
          ∷ (unlock melody_control
              ∷ (lock state ∷ (unlock state ∷ (lock buzzer ∷ (unlock buzzer ∷ []))))))
unfolding request command buzzer_command stop_melody
request_runs = refl

no_deadlock_example : (us : List Thread) × Go three_rounds us
unfolding countdown
no_deadlock_example =
    no_deadlock 7 1 (record { holds = []; rest = countdown playing 0 }) three_rounds three_begin
      refl (λ e. cc)

-- The melody thread takes its lock.
abbrev one_taken : List Thread
one_taken = put 0 (record { holds = state ∷ []; rest = unlock state ∷ [] }) three_rounds

rounds_end_example :
    (1 + remaining one_taken ≡ remaining three_rounds)
    × (us : List Thread) × Goes (remaining one_taken) one_taken us
    × All Done us
rounds_end_example =
    rounds_end 7 1 three_rounds one_taken three_begin
      (more (go 0 [] (lock state) (unlock state ∷ []) refl refl) stay)

-- The countdown thread in `pthread_join`, and its cancellation there; a client then begins its round.
abbrev left : List Op
left = join melody_tid ∷ unlock melody_control ∷ []

abbrev joining : List Thread
joining = put 1 (record { holds = melody_control ∷ []; rest = left }) one_round

abbrev cut : List Thread
cut = put 1 (record { holds = melody_control ∷ []; rest = countdown_cleanup false }) joining

abbrev asking : List Thread
asking = put 6 (record { holds = []; rest = request playing buzzer_on }) cut

control_lock_lost_example : enabled asking (lock melody_control) ≡ false
control_lock_lost_example = control_lock_lost left false joining asking refl (
    next start
      (begin 6 [] (request playing buzzer_on) refl (client_round playing buzzer_on (omega arith))))
