-- ===== src/Server/CountdownLaws.antt =====
-- A whole countdown of server/handler.c, and one that is cut off.
use mathlib.Core.List.{reverse}
use linux_veda_4sensor_tcp_c.Prelude.{
  refl, subst, All, map, is_neg, ◌++◌, times, ℕ, zero, suc, ◌<◌, ◌%◌, ◌≡◌, ◌∙◌, ap, ℤ, pos, negsuc,
  Bool, true, false, ◌⊎◌, List, [], ◌∷◌, arith,
}
use linux_veda_4sensor_tcp_c.Protocol.{
  Message, message, msg_event, dev_segment, dev_buzzer, evt_countdown, evt_alarm_triggered, act_on,
  act_off,
}
use linux_veda_4sensor_tcp_c.Server.State.{
  World, Env, SegmentThread, absent, counting, ringing, dimmed,
}
use linux_veda_4sensor_tcp_c.Server.Clients.{client_copies, send_to, broadcast_msg}
use linux_veda_4sensor_tcp_c.Server.ClientLaws.{registered}
use linux_veda_4sensor_tcp_c.Server.BroadcastLaws.{send_to-reverse}
use linux_veda_4sensor_tcp_c.Server.Dispatch.{dispatch_buzzer}
use linux_veda_4sensor_tcp_c.Server.Melody.{stop_melody_thread}
use linux_veda_4sensor_tcp_c.Server.Countdown.{segment_thread_step, stop_segment_locked}
use linux_veda_4sensor_tcp_c.Server.Validity.{IsValid}
use linux_veda_4sensor_tcp_c.Wiring.{g_seg_pins}
use linux_veda_4sensor_tcp_c.Devices.SegmentLaws.{glass, blank, segment_display-shown}

-- What the clients are told: every number down to 0, and then that the buzzer rings.
abbrev pub countdown_messages : ℕ → List Message
countdown_messages zero =
    message msg_event dev_segment evt_countdown 0
    ∷ message msg_event dev_buzzer evt_alarm_triggered 0
    ∷ []
countdown_messages (suc n) =
    message msg_event dev_segment evt_countdown (suc n) ∷ countdown_messages n

-- Messages one after the other, each once to all of `cs`; the sends newest first.
abbrev pub deliver : List Message → List ℤ → List (ℤ × Message) → List (ℤ × Message)
deliver [] cs sends = sends
deliver (m ∷ ms) cs sends = deliver ms cs (reverse (map (λ c. (c, m)) cs) ++ sends)

-- The same by the loops of `broadcast_msg`.
abbrev send_all : List Message → List ℤ → List (ℤ × Message) → List (ℤ × Message)
send_all [] cs sends = sends
send_all (m ∷ ms) cs sends = send_all ms cs (send_to m cs sends)

abbrev copies : Env → World → List ℤ
copies env w = client_copies env.dup w.state.client_fds

abbrev sent_by : Env → World → List Message → List (ℤ × Message)
sent_by env w ms = send_all ms (copies env w) w.events

send_all-deliver :
    (ms : List Message) (cs : List ℤ) (sends : List (ℤ × Message))
    → send_all ms cs sends ≡ deliver ms cs sends
send_all-deliver [] cs sends = refl
send_all-deliver (m ∷ ms) cs sends =
    send_all-deliver ms cs (send_to m cs sends) ∙ ap (deliver ms cs) (send_to-reverse m cs sends)

-- The world `v` when the buzzer rings, from the world `w`, with all the sends so far.
pub record Rings (sends : List (ℤ × Message)) (w v : World) : Type 0 where
  pub thread : v.segment.thread ≡ ringing
  pub value : v.state.segment_value ≡ pos 0
  pub buzzer : v.state.buzzer_state ≡ 1
  pub command : v.buzzer_cmd ≡ record { action = act_on; pending = 1 }
  pub told : v.events ≡ sends
  pub fds : v.state.client_fds ≡ w.state.client_fds

round-Rings :
    (env : Env) (w : World)
    → w.segment.thread ≡ counting 0
    → Rings (sent_by env w (countdown_messages 0)) w (segment_thread_step env w)
unfolding segment_thread_step stop_melody_thread broadcast_msg
round-Rings env w e = ground arith

-- The countdown owns the sound of the buzzer.
abbrev pub segment_rings : SegmentThread → Bool
segment_rings ringing = true
segment_rings dimmed = true
segment_rings _ = false

-- A round above 0.
record Ticks (env : Env) (n : ℕ) (w v : World) : Type 0 where
  thread : v.segment.thread ≡ counting n
  told :
      v.events
      ≡ send_to (message msg_event dev_segment evt_countdown (suc n)) (copies env w) w.events
  fds : v.state.client_fds ≡ w.state.client_fds

round-Ticks :
    (env : Env) (n : ℕ) (w : World)
    → w.segment.thread ≡ counting (suc n)
    → suc n < 256
    → Ticks env n w (segment_thread_step env w)
unfolding segment_thread_step broadcast_msg
round-Ticks env n w e small = let wrap : suc n % 256 ≡ suc n = omega arith in ground (arith, wrap)

Ticks-Rings :
    (env : Env) (n : ℕ) (w u v : World)
    → Ticks env n w u
    → Rings (sent_by env u (countdown_messages n)) u v
    → Rings (sent_by env w (countdown_messages (suc n))) w v
Ticks-Rings env n w u v t r = record {
  thread = r.thread;
  value = r.value;
  buzzer = r.buzzer;
  command = r.command;
  told =
      r.told
      ∙ ap (λ fds. send_all (countdown_messages n) (client_copies env.dup fds) u.events) t.fds
      ∙ ap (send_all (countdown_messages n) (copies env w)) t.told;
  fds = r.fds ∙ t.fds;
}

countdown-Rings :
    (env : Env) (n : ℕ) (w : World)
    → w.segment.thread ≡ counting n
    → n < 256
    → Rings (sent_by env w (countdown_messages n)) w (times (suc n) (segment_thread_step env) w)
countdown-Rings env zero w e small = round-Rings env w e
countdown-Rings env (suc n) w e small =
    let t = round-Ticks env n w e small in
    Ticks-Rings env n w (segment_thread_step env w) _ t
      (countdown-Rings env n (segment_thread_step env w) t.thread (omega arith))

-- The world `v` when the countdown is over, from the world `w` in which the buzzer rang.
pub record IsOver (w v : World) : Type 0 where
  pub thread : v.segment.thread ≡ absent
  pub running : v.segment.running ≡ 0
  pub value : v.state.segment_value ≡ negsuc 0
  pub buzzer : v.state.buzzer_state ≡ 0
  pub command : v.buzzer_cmd ≡ record { action = act_off; pending = 1 }
  pub told : v.events ≡ w.events

Rings-IsOver :
    (env : Env) (w : World)
    → w.segment.thread ≡ ringing
    → IsOver w (times 2 (segment_thread_step env) w)
unfolding segment_thread_step dispatch_buzzer
Rings-IsOver env w e = ground arith

-- Where every registered descriptor can be copied, the copies are those of all of them.
every_copy :
    (dup : ℤ → ℤ) (fds : List ℤ)
    → All (λ fd. is_neg (dup fd) ≡ false) (registered fds)
    → client_copies dup fds ≡ map dup (registered fds)
unfolding client_copies
every_copy dup [] copied = refl
every_copy dup (negsuc n ∷ fds) copied = every_copy dup fds copied
every_copy dup (pos n ∷ fds) copied =
    rw (copied.0) (ap (λ cs. dup (pos n) ∷ cs) (every_copy dup fds copied.1))

-- A countdown from n, below 256, that nobody cuts off, while each registered client's descriptor can
-- be copied, takes n + 1 rounds to the ringing of the buzzer: on the copy of every registered
-- descriptor, and on no other, n, n - 1, ..., 0 and then the ringing are sent, each once and in this
-- order. Two steps later the digit is told to be dark (`segment_value` -1), the buzzer is told to be
-- silent, and the thread is gone.
pub countdown_lem :
    (env : Env) (n : ℕ) (w : World)
    → w.segment.thread ≡ counting n
    → n < 256
    → All (λ fd. is_neg (env.dup fd) ≡ false) (registered w.state.client_fds)
    → let rung = times (suc n) (segment_thread_step env) w in
      Rings
        (deliver (countdown_messages n) (map env.dup (registered w.state.client_fds)) w.events)
        w
        rung
      × IsOver rung (times 2 (segment_thread_step env) rung)
countdown_lem env n w e small copied =
    let r = countdown-Rings env n w e small in
    let all = every_copy env.dup w.state.client_fds copied in
    (
      subst (λ sends. Rings sends w (times (suc n) (segment_thread_step env) w))
          (send_all-deliver (countdown_messages n) (copies env w) w.events
            ∙ ap (λ cs. deliver (countdown_messages n) cs w.events) all)
          r,
      Rings-IsOver env _ r.thread,
    )

-- What a countdown leaves that is cut off, wherever its thread stands: the digit is blank, the thread
-- has been joined, and the buzzer is told to be silent if the countdown had it ring.
pub record IsCut (w v : World) : Type 0 where
  pub thread : v.segment ≡ record { running = 0; joinable = 0; thread = absent }
  pub value : v.state.segment_value ≡ negsuc 0
  pub digit : glass v.board.calls ≡ blank
  pub silenced :
      (segment_rings w.segment.thread ≡ false)
      ⊎ ((v.state.buzzer_state ≡ 0) × (v.buzzer_cmd ≡ record { action = act_off; pending = 1 }))
  pub untouched :
      (segment_rings w.segment.thread ≡ true)
      ⊎ ((v.state.buzzer_state ≡ w.state.buzzer_state) × (v.buzzer_cmd ≡ w.buzzer_cmd))

-- Stopping a countdown that runs, in a valid state and with the pins of the server, as the
-- command to do so and the start of another one do: wherever its thread sleeps, the digit is
-- blank and `segment_value` -1, the thread has been joined, and the buzzer is told to be silent,
-- and `buzzer_state` is 0, if the countdown had it ring; otherwise the buzzer is left as it is.
pub stop_segment-IsCut :
    (w : World)
    → IsValid w
    → w.segment.running ≡ 1
    → w.board.segment_pins ≡ g_seg_pins
    → IsCut w (stop_segment_locked w)
unfolding stop_segment_locked
stop_segment-IsCut w v live pins = ground (arith, segment_display-shown (negsuc 0) w.board pins)
