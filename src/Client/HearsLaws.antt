-- ===== src/Client/HearsLaws.antt =====
-- What the client of client/main.c prints of all that several threads of server/ send it at once.
use linux_veda_4sensor_tcp_c.Prelude.{
  ℕ, ◌+◌, ◌*◌, ◌<◌, ◌≡◌, sym, ap, ◌∙◌, inl, inr, some, List, [], ◌∷◌, ◌++◌, length, arith,
}
use linux_veda_4sensor_tcp_c.Protocol.{Message}
use linux_veda_4sensor_tcp_c.Protocol.Codec.{message_size}
use linux_veda_4sensor_tcp_c.ProtocolIo.Contract.{RecvOk}
use linux_veda_4sensor_tcp_c.ProtocolIo.Recv.{RecvResult}
use linux_veda_4sensor_tcp_c.ProtocolIo.Contract.{Whole}
use linux_veda_4sensor_tcp_c.Server.Traffic.{Talk, senders, Merged}
use linux_veda_4sensor_tcp_c.Server.TrafficLaws.{Talk-Merged}
use linux_veda_4sensor_tcp_c.Client.Receiver.{connection_lost, recv_thread_fn}
use linux_veda_4sensor_tcp_c.Client.ReceiverLaws.{lines, recv_thread_fn_lem}
use linux_veda_4sensor_tcp_c.Client.ConversationLaws.{stream-injective}

module _ {Net : Type 0} (pending : Net → List ℕ) (interrupts : Net → ℕ)
    (recv : Net → ℕ → RecvResult × Net)
    (recv_law : (s : Net) (n : ℕ) → 0 < n → RecvOk pending interrupts (λ _. ⊥) s n (recv s n))
    (io_fuel : ℕ) where
  -- Several threads of the server send on a client's socket at the same time, each its messages one
  -- after the other, and each call of `send` takes what it is given. When all that the socket has
  -- taken reaches the client, in whatever pieces, and the connection does not break, its thread prints
  -- the lines of all these messages, those of each thread in its order, and then that the connection
  -- is gone.
  pub hears_all :
      (mss : List (List Message)) (final : List ℕ) (fuel : ℕ) (net : Net)
      → Talk Whole (senders mss) [] final
      → pending net ≡ final
      → length final < 4 * fuel
      → message_size + interrupts net < io_fuel
      → (ms : List Message) × (t : Net) × Merged mss ms
        × (recv_thread_fn recv io_fuel fuel net [] ≡ some (t, lines ms ++ connection_lost ∷ []))
  hears_all mss final fuel net talk arrives enough io =
      let (ms, merged, whole) = Talk-Merged mss final talk in
      let (got, rest, t, prints, split, left) =
        recv_thread_fn_lem pending interrupts (λ _. ⊥) recv recv_law io_fuel fuel net []
          (omega (arith, ap length arrives)) io in
      let short : length rest < message_size = elim left [
        | inl short ↦ short
        | inr (_, broken) ↦ absurd broken
      ] in
      let same = stream-injective got ms rest (sym whole ∙ sym arrives ∙ split) short in
      (ms, t, merged, prints ∙ ap (λ ms. some (t, lines ms ++ connection_lost ∷ [])) same)
