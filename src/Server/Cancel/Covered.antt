-- ===== src/Server/Cancel/Covered.antt =====
-- Every cancellation point of `segment_thread_fn` of server/handler.c is covered by `seg_cleanup`.
use linux_veda_4sensor_tcp_c.Prelude.{
  ℕ, zero, suc, ◌≡◌, refl, inl, inr, ◌==◌, Bool, true, false, ◌&&◌, ◌||◌, Bool-cases, ℤ, List, [],
  ◌∷◌, ◌++◌, append_assoc, length,
}
use linux_veda_4sensor_tcp_c.Protocol.{
  Message, message, msg_event, dev_segment, dev_buzzer, evt_countdown, evt_alarm_triggered, act_on,
}
use linux_veda_4sensor_tcp_c.Server.State.{countdown_reached_0}
use linux_veda_4sensor_tcp_c.Server.Cancel.Pieces.{
  Piece, copy_all, set_buzzer, post_buzzer, own_buzzer, write_log, nap, each_copy, stop_pieces,
  round_pieces, late_pieces,
}
use linux_veda_4sensor_tcp_c.Server.Cancel.Known.{Known, covered}

-- In a broadcast.
each-covered :
    (m : Message) (sc bc ow : Bool) (cs : List ℤ) (n : ℕ) (ps : List Piece)
    → ((sc && bc) || ow) ≡ true
    → covered n ps
        (record { state_calm = sc; box_calm = bc; owning = ow; opened = 0; held = false })
      ≡ true
    → covered n
        (each_copy m cs ++ ps)
        (record { state_calm = sc; box_calm = bc; owning = ow; opened = length cs; held = false })
      ≡ true
unfolding each_copy
each-covered m sc bc ow [] n ps ready c = c
each-covered m sc bc ow (x ∷ cs) n ps ready c = rw ready (each-covered m sc bc ow cs n ps ready c)

-- The whole of the thread from the round for `count`, as far as it needs no other round.
abbrev pub to_the_end : List ℤ → (joinable count : ℕ) → List Piece
to_the_end cs joinable zero = round_pieces cs joinable 0 ++ late_pieces
to_the_end cs joinable (suc count) = round_pieces cs joinable (suc count)

abbrev pub at_start : Known
at_start = record { state_calm = true; box_calm = true; owning = false; opened = 0; held = false }

stop-covered :
    (joinable n : ℕ) (ps : List Piece)
    → covered n ps at_start ≡ true
    → covered n (stop_pieces joinable ++ ps) at_start ≡ true
unfolding stop_pieces
stop-covered joinable n ps c = elim (Bool-cases (joinable == 0)) [ inl e ↦ rw e c | inr e ↦ rw e c ]

pub to_the_end-covered :
    (cs : List ℤ) (joinable count : ℕ)
    → covered (length cs) (to_the_end cs joinable count) at_start ≡ true
unfolding round_pieces late_pieces
to_the_end-covered cs joinable (suc count) =
    each-covered _ true true false cs (length cs) (nap ∷ []) refl refl
to_the_end-covered cs joinable zero =
    let ending = write_log countdown_reached_0 ∷ (nap ∷ late_pieces) in
    let evt = message msg_event dev_segment evt_countdown 0 in
    let alarm_evt = message msg_event dev_buzzer evt_alarm_triggered 0 in
    let alert =
      set_buzzer 1
      ∷ (post_buzzer act_on ∷ (own_buzzer 1 ∷ (copy_all ∷ (each_copy alarm_evt cs ++ ending)))) in
    simp append_assoc (
      each-covered evt true true false cs (length cs) (stop_pieces joinable ++ alert) refl (
        stop-covered joinable (length cs) alert
          (each-covered alarm_evt false false true cs (length cs) ending refl refl)))
