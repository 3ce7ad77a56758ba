-- ===== src/Client/ConversationLaws.antt =====
-- A whole connection from both sides: handle_client of server/handler.c answers what recv_thread_fn
-- of client/main.c prints.
use linux_veda_4sensor_tcp_c.Prelude.{
  ℕ, ◌+◌, ◌*◌, ◌<◌, ◌≡◌, refl, sym, ap, ◌∙◌, inl, inr, ℤ, some, List, [], ◌∷◌, ◌++◌, append_assoc,
  drop, length, length-append, arith,
}
use linux_veda_4sensor_tcp_c.Protocol.{Message, message}
use linux_veda_4sensor_tcp_c.Protocol.Codec.{message_size, encode, length-encode}
use linux_veda_4sensor_tcp_c.ProtocolIo.Contract.{RecvOk, SendOk}
use linux_veda_4sensor_tcp_c.ProtocolIo.Recv.{RecvResult}
use linux_veda_4sensor_tcp_c.ProtocolIo.Send.{SendResult}
use linux_veda_4sensor_tcp_c.Server.State.{World, Env}
use linux_veda_4sensor_tcp_c.Server.Accept.{end_client}
use linux_veda_4sensor_tcp_c.Server.Session.{handle_client}
use linux_veda_4sensor_tcp_c.Server.SessionLaws.{
  stream, dialogue, interleaved, Tells, handle_client_lem,
}
use linux_veda_4sensor_tcp_c.Client.Receiver.{connection_lost, recv_thread_fn}
use linux_veda_4sensor_tcp_c.Client.AnswerLaws.{Told, dialogue-Told}
use linux_veda_4sensor_tcp_c.Client.ReceiverLaws.{lines, recv_thread_fn_lem}

pub length-stream : (ms : List Message) → length (stream ms) ≡ 4 * length ms
length-stream [] = refl
length-stream (m ∷ ms) =
    length-append (encode m) (stream ms) ∙ omega (arith, length-encode m, length-stream ms)

abbrev first_message : List ℕ → Message
first_message (t ∷ d ∷ a ∷ v ∷ rest) = message t d a v
first_message _ = message 0 0 0 0

-- The first message of a stream is determined by it, and so is what follows.
encode-injective :
    (m n : Message) (p q : List ℕ) → encode m ++ p ≡ encode n ++ q → (m ≡ n) × (p ≡ q)
unfolding encode
encode-injective m n p q e = (ap first_message e, ap (drop message_size) e)

-- Messages are read off a stream in only one way.
pub stream-injective :
    (ms ns : List Message) (rest : List ℕ)
    → stream ns ≡ stream ms ++ rest
    → length rest < message_size
    → ms ≡ ns
stream-injective [] [] rest e short = refl
stream-injective [] (n ∷ ns) rest e short =
    absurd (omega (arith, ap length e, length-append (encode n) (stream ns), length-encode n))
stream-injective (m ∷ ms) [] rest e short = absurd (
    omega (
      arith,
      ap length e,
      length-append (encode m ++ stream ms) rest,
      length-append (encode m) (stream ms),
      length-encode m,
    ))
stream-injective (m ∷ ms) (n ∷ ns) rest e short =
    let (same, more) =
      encode-injective m n (stream ms ++ rest) (stream ns)
        (sym (append_assoc (encode m) (stream ms) rest) ∙ sym e) in
    ap (λ x. x ∷ ms) same ∙ ap (λ xs. n ∷ xs) (stream-injective ms ns rest (sym more) short)

-- The two ends of a connection that does not break: `client_end t` is the client's, when the
-- server has left its own end as `t`.
module _ {Net Remote : Type 0} (pending accepted : Net → List ℕ) (interrupts : Net → ℕ)
    (recv : Net → ℕ → RecvResult × Net) (send : Net → List ℕ → SendResult × Net)
    (recv_law : (s : Net) (n : ℕ) → 0 < n → RecvOk pending interrupts (λ _. ⊥) s n (recv s n))
    (send_law : (s : Net) (bs : List ℕ)
      → 0 < length bs
      → SendOk accepted interrupts (λ _. ⊥) s bs (send s bs))
    (recv_quiet : (s : Net) (n : ℕ) → accepted (recv s n).1 ≡ accepted s)
    (send_quiet : (s : Net) (bs : List ℕ) → pending (send s bs).1 ≡ pending s) (io_fuel : ℕ)
    (envs : ℕ → Env) (others : ℕ → World → World) (told : ℕ → List Message)
    (broadcasts : ℕ → Net → Net) (tells : Tells pending accepted interrupts told broadcasts)
    (cfd : ℤ) (client_pending : Remote → List ℕ) (client_interrupts : Remote → ℕ)
    (client_recv : Remote → ℕ → RecvResult × Remote)
    (client_law : (s : Remote) (n : ℕ)
      → 0 < n
      → RecvOk client_pending client_interrupts (λ _. ⊥) s n (client_recv s n))
    (client_fuel : ℕ) (client_end : Net → Remote)
    (arrives : (t : Net) → client_pending (client_end t) ≡ accepted t)
    (quiet : (t : Net) → message_size + client_interrupts (client_end t) < client_fuel) where
  -- On a connection that does not break, the client's thread prints for the requests `ms`, in
  -- whatever pieces they and the responses travel, exactly the lines of the server's responses to
  -- them, in the order of the requests, with the lines of what other threads broadcast to the client
  -- where they come between them, and then that the connection is gone. Each request has a line of its own
  -- among those of the responses, which names its device, or is a brightness where that was asked
  -- for. The server has taken the client out of its table. No other message comes between the parts
  -- of one, and the client's loop may take as many rounds as there are messages, and one.
  pub conversation_lem :
      (ms : List Message) (fuel rounds : ℕ) (net : Net) (w : World)
      → length ms < fuel
      → message_size + interrupts net < io_fuel
      → pending net ≡ stream ms
      → accepted net ≡ []
      → length (interleaved told (dialogue envs others ms 0 w).0 0) < rounds
      → (t : Net) × (u : Remote) × (handle_client recv send io_fuel envs others broadcasts cfd fuel
            0 net w
          ≡ some (t, end_client cfd (dialogue envs others ms 0 w).1))
        × (recv_thread_fn client_recv client_fuel rounds (client_end t) []
            ≡ some (
              u,
              lines (interleaved told (dialogue envs others ms 0 w).0 0) ++ connection_lost ∷ [],
            ))
        × Told ms (lines (dialogue envs others ms 0 w).0)
  conversation_lem ms fuel rounds net w enough io asked fresh heard =
      let (t, served, answered) =
        handle_client_lem pending accepted interrupts recv send recv_law send_law recv_quiet
          send_quiet io_fuel envs others told broadcasts tells cfd ms fuel 0 net w enough io
          asked in
      let messages = interleaved told (dialogue envs others ms 0 w).0 0 in
      let there : client_pending (client_end t) ≡ stream messages =
        arrives t ∙ answered ∙ ap (λ a. a ++ stream messages) fresh in
      let (got, rest, u, prints, split, left) =
        recv_thread_fn_lem client_pending client_interrupts (λ _. ⊥) client_recv client_law
          client_fuel rounds (client_end t) []
          (omega (arith, ap length there, length-stream messages, heard)) (quiet t) in
      let short : length rest < message_size = elim left [
        | inl short ↦ short
        | inr (_, broken) ↦ absurd broken
      ] in
      let same = stream-injective got messages rest (sym there ∙ split) short in
      (
        t,
        u,
        served,
        prints ∙ ap (λ ms. some (u, lines ms ++ connection_lost ∷ [])) same,
        dialogue-Told envs others ms 0 w,
      )
