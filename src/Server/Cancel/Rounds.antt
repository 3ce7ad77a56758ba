-- ===== src/Server/Cancel/Rounds.antt =====
-- The pieces of a round of `segment_thread_fn` of server/handler.c make the round.
use linux_veda_4sensor_tcp_c.Prelude.{
  ℕ, zero, suc, ◌%◌, ◌≡◌, refl, sym, ap, ◌∙◌, inl, inr, ◌==◌, Bool, false, Bool-cases, ℤ, pos, List,
  [], ◌∷◌, ◌++◌, arith,
}
use linux_veda_4sensor_tcp_c.Protocol.{
  Message, message, msg_event, dev_segment, dev_buzzer, evt_countdown, evt_alarm_triggered, act_on,
}
use linux_veda_4sensor_tcp_c.Server.State.{
  World, Env, SegmentThread, counting, ringing, countdown_reached_0, set_buzzer_state, log_event,
}
use linux_veda_4sensor_tcp_c.Server.Dispatch.{dispatch_buzzer}
use linux_veda_4sensor_tcp_c.Server.Clients.{client_copies, send_to, broadcast_msg}
use linux_veda_4sensor_tcp_c.Server.Melody.{stop_melody_thread}
use linux_veda_4sensor_tcp_c.Server.Countdown.{show, set_segment_thread, countdown_round}
use linux_veda_4sensor_tcp_c.Server.Cancel.Pieces.{
  Piece, copy_all, nap, write_log, set_buzzer, post_buzzer, own_buzzer, Midway, do_pieces,
  each_copy, stop_pieces, round_pieces, before,
}

-- The sends to all copies, and their closes.
each_copy_lem :
    (env : Env) (m : Message) (cs : List ℤ) (ps : List Piece) (w : World) (held : Bool) (owned : ℕ)
    → do_pieces env
        (each_copy m cs ++ ps)
        (record { world = w; copies = cs; controls = held; owned = owned })
      ≡ do_pieces env ps (record {
        world = record w { events = send_to m cs w.events };
        copies = [];
        controls = held;
        owned = owned;
      })
unfolding do_pieces each_copy send_to
each_copy_lem env m [] ps w held owned = refl
each_copy_lem env m (c ∷ cs) ps w held owned =
    each_copy_lem env m cs ps (record w { events = (c, m) ∷ w.events }) held owned

broadcast_lem :
    (env : Env) (m : Message) (cs : List ℤ) (ps : List Piece) (w : World) (owned : ℕ)
    → client_copies env.dup w.state.client_fds ≡ cs
    → do_pieces env
        (copy_all ∷ (each_copy m cs ++ ps))
        (record { world = w; copies = []; controls = false; owned = owned })
      ≡ do_pieces env ps
          (record { world = broadcast_msg env m w; copies = []; controls = false; owned = owned })
unfolding do_pieces broadcast_msg
broadcast_lem env m cs ps w owned e =
    let here : Midway = record { world = w; copies = []; controls = false; owned = owned } in
    ap (λ k. do_pieces env (copy_all ∷ (each_copy m k ++ ps)) here) (sym e)
    ∙ each_copy_lem env m (client_copies env.dup w.state.client_fds) ps w false owned

stop_lem :
    (env : Env) (ps : List Piece) (w : World)
    → do_pieces env (stop_pieces w.melody.joinable ++ ps) (before w)
      ≡ do_pieces env ps (before (stop_melody_thread env w))
unfolding do_pieces stop_pieces stop_melody_thread
stop_lem env ps w = elim (Bool-cases (w.melody.joinable == 0)) [
  | inl e ↦ rw e refl
  | inr e ↦ rw e refl
]

stop_melody-client_fds :
    (env : Env) (w : World) → (stop_melody_thread env w).state.client_fds ≡ w.state.client_fds
unfolding stop_melody_thread
stop_melody-client_fds env w = ground arith

abbrev pub owning : World → Midway
owning w = record { world = w; copies = []; controls = false; owned = 1 }

-- Where the round for `count` ends.
abbrev pub end_of : ℕ → World → Midway
end_of zero w = owning w
end_of (suc count) w = before w

abbrev pub behind : ℕ → SegmentThread
behind zero = ringing
behind (suc count) = counting count

-- The pieces of a round, one after the other, are the round of the model of whole steps; the copies
-- are then closed, the lock is released, and the buzzer is owned behind the round for 0.
pub round_pieces_lem :
    (env : Env) (count : ℕ) (w : World)
    → (v : World) × (do_pieces env
          (round_pieces (client_copies env.dup w.state.client_fds) w.melody.joinable count)
          (before w)
        ≡ end_of count v)
      × (countdown_round env count w ≡ set_segment_thread (behind count) v)
unfolding do_pieces round_pieces countdown_round broadcast_msg
round_pieces_lem env (suc count) w =
    let cs = client_copies env.dup w.state.client_fds in
    let evt = message msg_event dev_segment evt_countdown (suc count % 256) in
    let shown = show (pos (suc count)) w in
    (broadcast_msg env evt shown, broadcast_lem env evt cs (nap ∷ []) shown 0 refl, refl)
round_pieces_lem env zero w =
    let cs = client_copies env.dup w.state.client_fds in
    let evt = message msg_event dev_segment evt_countdown 0 in
    let alarm_evt = message msg_event dev_buzzer evt_alarm_triggered 0 in
    let ending = write_log countdown_reached_0 ∷ (nap ∷ []) in
    let alert =
      set_buzzer 1
      ∷ (post_buzzer act_on ∷ (own_buzzer 1 ∷ (copy_all ∷ (each_copy alarm_evt cs ++ ending)))) in
    let w₁ = broadcast_msg env evt (show (pos 0) w) in
    let w₂ = stop_melody_thread env w₁ in
    let w₃ = dispatch_buzzer act_on (set_buzzer_state 1 w₂) in
    (
      log_event countdown_reached_0 (broadcast_msg env alarm_evt w₃),
      broadcast_lem env evt cs (stop_pieces w.melody.joinable ++ alert) (show (pos 0) w) 0 refl
          ∙ stop_lem env alert w₁
          ∙ broadcast_lem env alarm_evt cs ending w₃ 1
              (ap (client_copies env.dup) (stop_melody-client_fds env w₁)),
      refl,
    )
