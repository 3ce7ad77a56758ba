-- ===== src/Server/Tests/Scenes.antt =====
-- A server of server/ that has been started, and what happens to it.
use linux_veda_4sensor_tcp_c.Prelude.{ℕ, ℤ, pos, ◌+ℤ◌, List, [], ◌∷◌}
use linux_veda_4sensor_tcp_c.Protocol.{
  Message, message, msg_cmd, dev_led, dev_buzzer, dev_segment, act_set_brightness, act_play_melody,
  act_set_number,
}
use linux_veda_4sensor_tcp_c.Server.State.{Env, cancelled}
use linux_veda_4sensor_tcp_c.Server.Accept.{Setup, Connection}
use linux_veda_4sensor_tcp_c.Server.System.{
  Action, led, buzzer, melody, segment, sensor, accept, request, leave,
}

abbrev pub all_well : Setup
all_well = record { led = pos 0; buzzer = pos 0; sensor = pos 3; segment = pos 0 }

-- Threads can be had, and the sensor reads 200.
abbrev pub dark : Env
dark = record {
  create_melody = 0;
  create_segment = 0;
  melody_end = cancelled;
  dup = λ fd. fd +ℤ pos 100;
  transfers = record { write = pos 0; stale = pos 0; fresh = pos 200 };
}

abbrev pub melody_request : Message
melody_request = message msg_cmd dev_buzzer act_play_melody 0

abbrev pub countdown_request : ℕ → Message
countdown_request n = message msg_cmd dev_segment act_set_number n

abbrev pub brightness_request : ℕ → Message
brightness_request n = message msg_cmd dev_led act_set_brightness n

abbrev pub newcomer : ℤ → Connection
newcomer fd = record { fd = fd; setsockopt = λ fd timeout. pos 0; thread_result = 0 }

-- Two clients come, a third gets no thread, one plays a melody and starts a countdown, it goes dark
-- and the alarm starts over the melody, and the first client leaves.
abbrev pub day : List Action
day =
    accept (newcomer (pos 5))
    ∷ accept (newcomer (pos 6))
    ∷ accept (record { fd = pos 7; setsockopt = λ fd timeout. pos 0; thread_result = 11 })
    ∷ request dark (brightness_request 2)
    ∷ led
    ∷ request dark melody_request
    ∷ melody
    ∷ melody
    ∷ request dark (countdown_request 3)
    ∷ segment dark
    ∷ sensor dark
    ∷ sensor dark
    ∷ sensor dark
    ∷ buzzer
    ∷ leave (pos 5)
    ∷ []
