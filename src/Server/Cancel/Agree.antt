-- ===== src/Server/Cancel/Agree.antt =====
-- The pieces of `segment_thread_fn` of server/handler.c against the two other models of it: the
-- whole steps of Server/Countdown, and the locks of Server/Locks.
use linux_veda_4sensor_tcp_c.Prelude.{
  ℕ, zero, suc, ◌≡◌, refl, sym, ap, ◌∙◌, ◌==◌, not, inl, inr, Bool-cases, ℤ, List, [], ◌∷◌, ◌++◌,
  append_assoc, append-nil,
}
use linux_veda_4sensor_tcp_c.Protocol.{Message}
use linux_veda_4sensor_tcp_c.Server.State.{World, Env}
use linux_veda_4sensor_tcp_c.Server.Clients.{client_copies}
use linux_veda_4sensor_tcp_c.Server.Countdown.{set_segment_thread, countdown_round}
use linux_veda_4sensor_tcp_c.Server.Locks.Programs.{
  Op, lock, unlock, join, melody_control, melody_tid, state, buzzer, Found, brief, stop_melody,
  countdown,
}
use linux_veda_4sensor_tcp_c.Server.Cancel.Pieces.{
  Piece, display, copy_all, send_first, close_first, take_control, release_control, tell_melody,
  join_thread, forget_melody, set_buzzer, post_buzzer, own_buzzer, write_log, nap, do_pieces,
  each_copy, stop_pieces, round_pieces, late_pieces, before,
}
use linux_veda_4sensor_tcp_c.Server.Cancel.Rounds.{end_of, behind, round_pieces_lem}
use linux_veda_4sensor_tcp_c.Server.Cancel.Covered.{to_the_end}

-- What a piece locks, unlocks and joins.
abbrev pub ops_of : Piece → List Op
ops_of (display n) = brief state
ops_of copy_all = brief state
ops_of (send_first m) = []
ops_of close_first = []
ops_of take_control = lock melody_control ∷ []
ops_of release_control = unlock melody_control ∷ []
ops_of tell_melody = []
ops_of join_thread = join melody_tid ∷ []
ops_of forget_melody = []
ops_of (set_buzzer n) = brief state
ops_of (post_buzzer a) = brief buzzer
ops_of (own_buzzer n) = []
ops_of (write_log e) = []
ops_of nap = []

abbrev pub ops : List Piece → List Op
ops [] = []
ops (p ∷ ps) = ops_of p ++ ops ps

ops-append : (ps qs : List Piece) → ops (ps ++ qs) ≡ ops ps ++ ops qs
ops-append [] qs = refl
ops-append (p ∷ ps) qs =
    ap (λ os. ops_of p ++ os) (ops-append ps qs) ∙ sym (append_assoc (ops_of p) (ops ps) (ops qs))

ops-each_copy : (m : Message) (cs : List ℤ) → ops (each_copy m cs) ≡ []
unfolding each_copy
ops-each_copy m [] = refl
ops-each_copy m (c ∷ cs) = ops-each_copy m cs

ops_behind_copies :
    (m : Message) (cs : List ℤ) (ps : List Piece) → ops (each_copy m cs ++ ps) ≡ ops ps
ops_behind_copies m cs ps =
    ops-append (each_copy m cs) ps ∙ ap (λ os. os ++ ops ps) (ops-each_copy m cs)

ops-stop_pieces :
    (joinable : ℕ) (f : Found)
    → f.melody_joinable ≡ not (joinable == 0)
    → ops (stop_pieces joinable) ≡ stop_melody f
unfolding stop_pieces stop_melody
ops-stop_pieces joinable f e = elim (Bool-cases (joinable == 0)) [
  | inl z ↦ rw (e, z) refl
  | inr z ↦ rw (e, z) refl
]

-- The rounds behind that for `count`.
abbrev pub rounds_behind : Found → ℕ → List Op
rounds_behind f zero = []
rounds_behind f (suc count) = countdown f count

ops-to_the_end :
    (cs : List ℤ) (joinable count : ℕ) (f : Found)
    → f.melody_joinable ≡ not (joinable == 0)
    → ops (to_the_end cs joinable count) ++ rounds_behind f count ≡ countdown f count
unfolding round_pieces late_pieces countdown
ops-to_the_end cs joinable (suc count) f e = simp (ops-append, ops-each_copy) refl
ops-to_the_end cs joinable zero f e =
    let stop = ops-stop_pieces joinable f e in
    simp (append-nil, append_assoc, ops-append, ops-each_copy, stop) refl

-- The pieces of a round, one after the other, are the round of the model of whole steps; the copies
-- are then closed, the lock is released, and the buzzer is owned behind the round for 0. And if a
-- melody thread is joinable in the one model exactly if it is in the other, the pieces to the end of
-- the round, or for 0 to the end of the thread, lock, unlock and join what the countdown of the model
-- of the locks does, up to the rounds behind.
pub countdown_pieces_lem :
    (env : Env) (count : ℕ) (w : World) (f : Found)
    → f.melody_joinable ≡ not (w.melody.joinable == 0)
    → let cs = client_copies env.dup w.state.client_fds in
      let joinable = w.melody.joinable in
      ((v : World) × (do_pieces env (round_pieces cs joinable count) (before w) ≡ end_of count v)
        × (countdown_round env count w ≡ set_segment_thread (behind count) v))
      × (ops (to_the_end cs joinable count) ++ rounds_behind f count ≡ countdown f count)
countdown_pieces_lem env count w f e =
    let cs = client_copies env.dup w.state.client_fds in
    (round_pieces_lem env count w, ops-to_the_end cs w.melody.joinable count f e)
