-- ===== src/Server/Tests/Connection.antt =====
-- A connection of handle_client of server/handler.c in two directions, in pieces.
use linux_veda_4sensor_tcp_c.Prelude.{
  ◌==◌, Bool-cases, inl, inr, if◌then◌else◌, ltb, ℕ, ◌<◌, ◌≡◌, refl, pos, some, List, [], ◌∷◌, ◌++◌,
  length, take, arith,
}
use linux_veda_4sensor_tcp_c.Protocol.{Message, message, msg_event, evt_countdown, dev_segment}
use linux_veda_4sensor_tcp_c.Protocol.Codec.{encode}
use linux_veda_4sensor_tcp_c.ProtocolIo.Defs.{Errno, eintr, econnreset, epipe, other}
use linux_veda_4sensor_tcp_c.ProtocolIo.Contract.{RecvOk, SendOk}
use linux_veda_4sensor_tcp_c.ProtocolIo.Recv.{RecvResult, bytes, error}
use linux_veda_4sensor_tcp_c.ProtocolIo.Send.{SendResult, sent}
use linux_veda_4sensor_tcp_c.ProtocolIo.Scripted.{
  Wire, cap, cap-le, still, scripted_recv, scripted_recv-RecvOk,
}
use linux_veda_4sensor_tcp_c.Server.Dispatch.{led_thread_step}
use linux_veda_4sensor_tcp_c.Server.Accept.{initial_world, end_client}
use linux_veda_4sensor_tcp_c.Server.Session.{handle_client}
use linux_veda_4sensor_tcp_c.Server.SessionEnds.{handle_client_total}
use linux_veda_4sensor_tcp_c.Server.SessionLaws.{
  stream, dialogue, interleaved, Tells, handle_client_lem,
}
use linux_veda_4sensor_tcp_c.Client.Receiver.{connection_lost, recv_thread_fn}
use linux_veda_4sensor_tcp_c.Client.AnswerLaws.{Told}
use linux_veda_4sensor_tcp_c.Client.ReceiverLaws.{lines}
use linux_veda_4sensor_tcp_c.Client.ConversationLaws.{conversation_lem}
use linux_veda_4sensor_tcp_c.Server.Tests.Scenes.{
  dark, brightness_request, countdown_request, melody_request,
}

-- The requests come as the script of `incoming` says, and a response leaves in pieces of at most
-- three bytes.
record Duplex : Type 0 where
  incoming : Wire
  outgoing : List ℕ

abbrev duplex_recv : Duplex → ℕ → RecvResult × Duplex
duplex_recv d n = let (r, w) = scripted_recv d.incoming n in (r, record d { incoming = w })

abbrev duplex_send : Duplex → List ℕ → SendResult × Duplex
duplex_send d bs =
    let n = cap 3 (length bs) in (sent n, record d { outgoing = d.outgoing ++ take n bs })

abbrev pending : Duplex → List ℕ
pending d = d.incoming.stream

abbrev interrupts : Duplex → ℕ
interrupts d = still d.incoming

incoming-RecvOk :
    (Breaks : Errno → Type 0) (w : Wire) (n : ℕ) (r : RecvResult) (v : Wire) (out : List ℕ)
    → RecvOk (λ w. w.stream) still (λ _. ⊥) w n (r, v)
    → RecvOk pending interrupts Breaks
        (record { incoming = w; outgoing = out })
        n
        (r, record { incoming = v; outgoing = out })
incoming-RecvOk Breaks w n (bytes []) v out h = h
incoming-RecvOk Breaks w n (bytes (b ∷ bs)) v out h = h
incoming-RecvOk Breaks w n (error eintr) v out h = h
incoming-RecvOk Breaks w n (error econnreset) v out h = absurd h.0
incoming-RecvOk Breaks w n (error epipe) v out h = absurd h.0
incoming-RecvOk Breaks w n (error (other k)) v out h = absurd h.0

duplex_recv-RecvOk :
    (Breaks : Errno → Type 0) (d : Duplex) (n : ℕ)
    → 0 < n
    → RecvOk pending interrupts Breaks d n (duplex_recv d n)
duplex_recv-RecvOk Breaks d n h =
    let (r, w) = scripted_recv d.incoming n in
    incoming-RecvOk Breaks d.incoming n r w d.outgoing (scripted_recv-RecvOk d.incoming n h)

duplex_send-SendOk :
    (d : Duplex) (bs : List ℕ)
    → 0 < length bs
    → SendOk (λ d. d.outgoing) interrupts (λ _. ⊥) d bs (duplex_send d bs)
duplex_send-SendOk d [] h = absurd (omega arith)
duplex_send-SendOk d (b ∷ bs) h =
    (omega arith, omega (arith, cap-le 2 (length bs)), refl, omega arith)

-- Before the second request another thread tells the client of a countdown.
abbrev tick : Message
tick = message msg_event dev_segment evt_countdown 3

abbrev told : ℕ → List Message
told i = if i == 1 then tick ∷ [] else []

abbrev broadcasts : ℕ → Duplex → Duplex
broadcasts i d = record d { outgoing = d.outgoing ++ stream (told i) }

broadcasts-Tells : Tells pending (λ d. d.outgoing) interrupts told broadcasts
broadcasts-Tells = record { whole = λ i d. refl; unread = λ i d. refl; still = λ i d. omega arith }

abbrev requests : List Message
requests = brightness_request 2 ∷ melody_request ∷ countdown_request 12 ∷ []

-- The three requests in pieces, with two interruptions.
abbrev connected : Duplex
connected = record {
  incoming = record { stream = stream requests; cuts = 1 ∷ 0 ∷ 2 ∷ 1 ∷ 0 ∷ 4 ∷ 3 ∷ [] };
  outgoing = [];
}

-- The LED thread runs before each request.
handle_client_lem_example :
    (t : Duplex) × (handle_client duplex_recv duplex_send 7
        (λ _. dark)
        (λ _. led_thread_step)
        broadcasts
        (pos 5)
        4
        0
        connected
        initial_world
      ≡ some (
        t,
        end_client (pos 5) (dialogue (λ _. dark) (λ _. led_thread_step) requests 0 initial_world).1,
      ))
    × (t.outgoing
        ≡ []
          ++ stream (
              interleaved told
                (dialogue (λ _. dark) (λ _. led_thread_step) requests 0 initial_world).0
                0))
handle_client_lem_example =
    handle_client_lem pending (λ d. d.outgoing) interrupts duplex_recv duplex_send
      (duplex_recv-RecvOk (λ _. ⊥)) duplex_send-SendOk (λ d n. refl) (λ d bs. refl) 7 (λ _. dark)
      (λ _. led_thread_step) told broadcasts broadcasts-Tells (pos 5) requests 4 0 connected
      initial_world (omega arith) (omega arith) refl

-- The peer takes no more than six bytes, and ends within a request.
abbrev breaking_send : Duplex → List ℕ → SendResult × Duplex
breaking_send d bs =
    if ltb (length d.outgoing) 6 then duplex_send d bs else (SendResult.error epipe, d)

abbrev Anything : Errno → Type 0
Anything e = Unit

breaking_send-SendOk :
    (d : Duplex) (bs : List ℕ)
    → 0 < length bs
    → SendOk (λ d. d.outgoing) interrupts Anything d bs (breaking_send d bs)
breaking_send-SendOk d [] h = absurd (omega arith)
breaking_send-SendOk d (b ∷ bs) h = elim (Bool-cases (ltb (length d.outgoing) 6)) [
  | inl room ↦ rw room (duplex_send-SendOk d (b ∷ bs) h)
  | inr full ↦ rw full (tt, refl, omega arith)
]

breaking_send-quiet : (d : Duplex) (bs : List ℕ) → pending (breaking_send d bs).1 ≡ pending d
breaking_send-quiet d bs = elim (Bool-cases (ltb (length d.outgoing) 6)) [
  | inl room ↦ rw room refl
  | inr full ↦ rw full refl
]

abbrev half_gone : Duplex
half_gone = record {
  incoming = record { stream = stream requests ++ 1 ∷ 1 ∷ []; cuts = 1 ∷ 0 ∷ 2 ∷ [] };
  outgoing = [];
}

handle_client_total_example :
    (ms : List Message) × (rest : List ℕ) × (t : Duplex) × (handle_client duplex_recv breaking_send
        6
        (λ _. dark)
        (λ _. led_thread_step)
        broadcasts
        (pos 5)
        4
        0
        half_gone
        initial_world
      ≡ some (
        t,
        end_client (pos 5) (dialogue (λ _. dark) (λ _. led_thread_step) ms 0 initial_world).1,
      ))
    × (stream requests ++ 1 ∷ 1 ∷ [] ≡ stream ms ++ rest)
handle_client_total_example =
    handle_client_total pending (λ d. d.outgoing) interrupts Anything duplex_recv breaking_send
      (duplex_recv-RecvOk Anything) breaking_send-SendOk breaking_send-quiet 6 (λ _. dark)
      (λ _. led_thread_step) broadcasts (λ i d. refl) (λ i d. omega arith) (pos 5) 4 0 half_gone
      initial_world (unfold encode in omega arith) (omega arith)

-- What the server has sent arrives in one piece.
abbrev client_end : Duplex → Wire
client_end d = record { stream = d.outgoing; cuts = [] }

conversation_lem_example :
    (t : Duplex) × (u : Wire) × (handle_client duplex_recv duplex_send 7
        (λ _. dark)
        (λ _. led_thread_step)
        broadcasts
        (pos 5)
        4
        0
        connected
        initial_world
      ≡ some (
        t,
        end_client (pos 5) (dialogue (λ _. dark) (λ _. led_thread_step) requests 0 initial_world).1,
      ))
    × (recv_thread_fn scripted_recv 5 5 (client_end t) []
        ≡ some (
          u,
          lines (
                interleaved told
                  (dialogue (λ _. dark) (λ _. led_thread_step) requests 0 initial_world).0
                  0)
              ++ connection_lost ∷ [],
        ))
    × Told requests (lines (dialogue (λ _. dark) (λ _. led_thread_step) requests 0 initial_world).0)
conversation_lem_example =
    conversation_lem pending (λ d. d.outgoing) interrupts duplex_recv duplex_send
      (duplex_recv-RecvOk (λ _. ⊥)) duplex_send-SendOk (λ d n. refl) (λ d bs. refl) 7 (λ _. dark)
      (λ _. led_thread_step) told broadcasts broadcasts-Tells (pos 5) (λ w. w.stream) still
      scripted_recv scripted_recv-RecvOk 5 client_end (λ t. refl) (λ t. omega arith) requests 4 5
      connected initial_world (omega arith) (omega arith) refl refl (omega arith)
