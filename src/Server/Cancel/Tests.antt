-- ===== src/Server/Cancel/Tests.antt =====
-- A countdown of server/handler.c at 0, with two clients and a melody that plays, cancelled.
use linux_veda_4sensor_tcp_c.Prelude.{true, false, refl, pos, List, [], ◌∷◌}
use linux_veda_4sensor_tcp_c.Protocol.{
  Message, message, msg_event, dev_segment, dev_buzzer, evt_countdown, evt_alarm_triggered, act_on,
}
use linux_veda_4sensor_tcp_c.Server.State.{World, Env, MelodyThread, cancelled, countdown_reached_0}
use linux_veda_4sensor_tcp_c.Server.Clients.{client_copies, no_client}
use linux_veda_4sensor_tcp_c.Server.Accept.{initial_world}
use linux_veda_4sensor_tcp_c.Server.Cancel.Pieces.{
  Piece, display, copy_all, send_first, close_first, take_control, release_control, tell_melody,
  join_thread, forget_melody, set_buzzer, post_buzzer, own_buzzer, write_log, nap, before,
  do_pieces, each_copy, stop_pieces, round_pieces, late_pieces,
}
use linux_veda_4sensor_tcp_c.Server.Locks.Programs.{Found}
use linux_veda_4sensor_tcp_c.Server.Cancel.Quiet.{LeftQuiet, cancelled-LeftQuiet}

abbrev two_clients : World
two_clients = record initial_world {
  state = record (initial_world.state) { client_fds = pos 5 ∷ pos 6 ∷ no_client ∷ no_client ∷ [] };
  melody = record { running = 1; joinable = 1; thread = MelodyThread.started };
}

abbrev env : Env
env = record {
  create_melody = 0;
  create_segment = 0;
  melody_end = cancelled;
  dup = λ fd. fd;
  transfers = record { write = pos 0; stale = pos 0; fresh = pos 0 };
}

abbrev playing : Found
playing = record {
  melody_joinable = true;
  segment_joinable = true;
  created = true;
  already = false;
  lux = pos 0;
}

abbrev tick : Message
tick = message msg_event dev_segment evt_countdown 0

abbrev alarm_evt : Message
alarm_evt = message msg_event dev_buzzer evt_alarm_triggered 0

-- Up to the send of the alarm's event to the second client.
abbrev done : List Piece
done =
    display (pos 0)
    ∷ (copy_all
        ∷ (send_first tick
            ∷ (close_first
                ∷ (send_first tick
                    ∷ (close_first
                        ∷ (take_control
                            ∷ (tell_melody
                                ∷ (join_thread
                                    ∷ (forget_melody
                                        ∷ (release_control
                                            ∷ (set_buzzer 1
                                                ∷ (post_buzzer act_on
                                                    ∷ (own_buzzer 1
                                                        ∷ (copy_all
                                                            ∷ (send_first alarm_evt
                                                            ∷ (close_first ∷ []))))))))))))))))

cancelled-LeftQuiet_example :
    LeftQuiet two_clients (send_first alarm_evt) (do_pieces env done (before two_clients))
unfolding round_pieces late_pieces each_copy stop_pieces client_copies
cancelled-LeftQuiet_example =
    cancelled-LeftQuiet env two_clients 0 done (send_first alarm_evt)
      (close_first ∷ (write_log countdown_reached_0 ∷ (nap ∷ late_pieces))) refl refl
