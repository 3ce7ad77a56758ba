-- ===== src/Client/ConnectionTests.antt =====
-- The client of client/main.c from its start to its end, and its receiver.
use linux_veda_4sensor_tcp_c.Prelude.{
  ℕ, ◌+◌, ◌≡◌, refl, arith, ℤ, pos, is_neg, ◌==ℤ◌, if◌then◌else◌, Option, none, some, List, [], ◌∷◌,
  ◌++◌,
}
use linux_veda_4sensor_tcp_c.Process.{pthread_create, sigterm, Kernel, exited}
use linux_veda_4sensor_tcp_c.Process.Files.{Object, meaning, IsFresh}
use linux_veda_4sensor_tcp_c.Process.Ends.{Ends}
use linux_veda_4sensor_tcp_c.Protocol.{
  Message, message, msg_event, msg_resp, evt_countdown, dev_segment, dev_led,
}
use linux_veda_4sensor_tcp_c.Protocol.Codec.{encode}
use linux_veda_4sensor_tcp_c.Process.Simulated.{lowest-fresh, numbers, simulated}
use linux_veda_4sensor_tcp_c.ProtocolIo.Scripted.{Wire, still, scripted_recv, scripted_recv-RecvOk}
use linux_veda_4sensor_tcp_c.Server.SessionLaws.{stream}
use linux_veda_4sensor_tcp_c.ProtocolIo.Contract.{Whole}
use linux_veda_4sensor_tcp_c.Server.Traffic.{Talk, over, begins, sends, senders, Merged}
use linux_veda_4sensor_tcp_c.Client.HearsLaws.{hears_all}
use linux_veda_4sensor_tcp_c.Client.Receiver.{connection_lost, recv_thread_fn}
use linux_veda_4sensor_tcp_c.Client.ReceiverLaws.{lines, Remains, recv_thread_fn_lem}
use linux_veda_4sensor_tcp_c.Client.Startup.{signal_number, termination_handler, connect_server}
use linux_veda_4sensor_tcp_c.Client.StartupLaws.{
  Connects, GivesUp, connect_server-Ends, termination_handler_lem,
}

-- A countdown at 3, a response, and the half of a message.
abbrev arriving : List ℕ
arriving =
    stream (message msg_event dev_segment evt_countdown 3 ∷ message msg_resp dev_led 1 0 ∷ [])
    ++ 2 ∷ 1 ∷ []

abbrev wire : Wire
wire = record { stream = arriving; cuts = 3 ∷ 0 ∷ 2 ∷ [] }

recv_thread_fn_lem_example :
    (ms : List Message) × (rest : List ℕ) × (t : Wire) × (recv_thread_fn scripted_recv 6 3 wire []
      ≡ some (t, [] ++ (lines ms ++ connection_lost ∷ [])))
    × (arriving ≡ stream ms ++ rest)
    × Remains (λ w. w.stream) still (λ _. ⊥) rest
unfolding encode
recv_thread_fn_lem_example =
    recv_thread_fn_lem (λ w. w.stream) still (λ _. ⊥) scripted_recv scripted_recv-RecvOk 6 3 wire []
      (omega arith) (omega arith)

abbrev shell : ℤ → Option Object
shell fd = none

-- No thread can be had.
abbrev busy : Kernel
busy h (pthread_create w) = pos 11
busy h c = simulated shell h c

fresh : IsFresh shell busy
fresh = record {
  of_socket = λ h found. lowest-fresh shell numbers h found;
  of_open = λ h path found. lowest-fresh shell numbers h found;
}

connect_server-Ends_example :
    Ends
      (Connects shell busy fresh [])
      (GivesUp shell busy fresh none [])
      (connect_server busy none [])
connect_server-Ends_example = connect_server-Ends shell busy fresh none []

termination_handler_lem_example :
    let r = termination_handler busy (pos 3) sigterm [] in
    (r.0 ≡ exited (128 + signal_number sigterm))
    × (meaning shell r.1 (pos 3) ≡ (
        if is_neg (pos 3)
        then meaning shell [] (pos 3)
        else if pos 3 ==ℤ pos 3
        then none
        else meaning shell [] (pos 3)))
termination_handler_lem_example =
    termination_handler_lem shell busy fresh (pos 3) sigterm [] (pos 3)

-- The answer to a command, while the countdown goes from 3 to 2.
abbrev answer : Message
answer = message msg_resp dev_led 1 0

abbrev tick : ℕ → Message
tick n = message msg_event dev_segment evt_countdown n

abbrev three_messages : List ℕ
three_messages = stream (tick 3 ∷ answer ∷ tick 2 ∷ [])

talking : Talk Whole (senders ((answer ∷ []) ∷ (tick 3 ∷ tick 2 ∷ []) ∷ [])) [] three_messages
unfolding encode
talking = begins 1 (tick 3) (tick 2 ∷ []) refl (
    begins 0 answer [] refl (
      sends 1 4 (encode (tick 3)) (tick 2 ∷ []) refl (omega arith) (omega arith) refl (
        sends 0 4 (encode answer) [] refl (omega arith) (omega arith) refl (
          begins 1 (tick 2) [] refl (
            sends 1 4 (encode (tick 2)) [] refl (omega arith) (omega arith) refl
              (over _ ((refl, refl), ((refl, refl), tt))))))))

abbrev three_come : Wire
three_come = record { stream = three_messages; cuts = 3 ∷ 0 ∷ 2 ∷ [] }

hears_all_example :
    (ms : List Message) × (t : Wire) × Merged ((answer ∷ []) ∷ (tick 3 ∷ tick 2 ∷ []) ∷ []) ms
    × (recv_thread_fn scripted_recv 6 4 three_come [] ≡ some (t, lines ms ++ connection_lost ∷ []))
unfolding encode
hears_all_example =
    hears_all (λ w. w.stream) still scripted_recv scripted_recv-RecvOk 6
      ((answer ∷ []) ∷ (tick 3 ∷ tick 2 ∷ []) ∷ []) three_messages 4 three_come talking refl
      (omega arith) (omega arith)
