-- ===== src/Gateway/AliveLaws.antt =====
-- How web/server.js keeps its connection to the alarm server.
use linux_veda_4sensor_tcp_c.Prelude.{
  ℕ, ◌<◌, ◌≡◌, refl, sym, ap, ◌∙◌, subst, inl, inr, Bool, true, false, Bool-cases, Option-cases,
  ◌&&◌, if◌then◌else◌, Option, none, some, List, [], ◌∷◌, ◌++◌, arith,
}
use linux_veda_4sensor_tcp_c.Gateway.Frames.{
  fixed_command, Encoded, buffer, type_error, range_error, decode_frames, command_message,
}
use linux_veda_4sensor_tcp_c.Gateway.Bridge.{
  malformed, no_text, command, not_connected, Output, answer, written, Gateway, emit, is_current,
  on_data, on_close, on_broken, on_connect, on_timer, on_message, on_browser, connect_pi, send_pi,
  Happening, connected, broken, closed, came, timer_fires, browser_comes, browser_goes, asked,
  answer_of, step, run, started,
}
use linux_veda_4sensor_tcp_c.Gateway.BridgeLaws.{
  nothing_in, remaining_short, on_data_current, on_data_other,
}

abbrev pub is_none : Option ℕ → Bool
is_none none = true
is_none (some s) = false

abbrev pub Below : Option ℕ → ℕ → Type 0
Below none n = Unit
Below (some s) n = s < n

-- There is a timer exactly if there is no socket; without a socket the connection is not open; the
-- socket has been made; and the buffer holds no whole message.
pub record Alive (g : Gateway) : Type 0 where
  one : g.timer ≡ is_none g.tcp
  shut : (is_none g.tcp && g.is_open) ≡ false
  made : Below g.tcp g.sockets
  short : decode_frames g.tcp_buffer ≡ ([], g.tcp_buffer)

-- Changes of the browsers and the outputs only.
same-Alive :
    (g : Gateway) (bs : List ℕ) (os : List Output)
    → Alive g
    → Alive (record g { browsers = bs; outputs = os })
same-Alive g bs os a = record { one = a.one; shut = a.shut; made = a.made; short = a.short }

current : (s : ℕ) (o : Option ℕ) → is_current s o ≡ true → is_none o ≡ false
current s none e = cc
current s (some t) e = refl

on_connect-Alive : (s : ℕ) (g : Gateway) → Alive g → Alive (on_connect s g)
unfolding on_connect
on_connect-Alive s g a = elim (Bool-cases (is_current s g.tcp)) [
  | inl here ↦
      let opened : Alive (record g { is_open = true }) = record {
        one = a.one;
        shut = ap (λ b. b && true) (current s g.tcp here);
        made = a.made;
        short = a.short;
      } in
      rw here (same-Alive (record g { is_open = true }) g.browsers _ opened)
  | inr other ↦ rw other (same-Alive g g.browsers _ a)
]

on_close-Alive : (s : ℕ) (g : Gateway) → Alive g → Alive (on_close s g)
unfolding on_close
on_close-Alive s g a = elim (Bool-cases (is_current s g.tcp)) [
  | inl here ↦
      rw (here, a.one ∙ current s g.tcp here)
        (record { one = refl; shut = refl; made = tt; short = nothing_in })
  | inr other ↦ rw other a
]

never : (b : Bool) → (b && false) ≡ false
never true = refl
never false = refl

on_broken-Alive : (s : ℕ) (g : Gateway) → Alive g → Alive (on_broken s g)
unfolding on_broken
on_broken-Alive s g a = elim (Bool-cases (is_current s g.tcp)) [
  | inl here ↦
      rw here (record { one = a.one; shut = never (is_none g.tcp); made = a.made; short = a.short })
  | inr other ↦ rw other a
]

on_data-Alive : (s : ℕ) (bytes : List ℕ) (g : Gateway) → Alive g → Alive (on_data s bytes g)
on_data-Alive s bytes g a = elim (Bool-cases (is_current s g.tcp)) [
  | inl here ↦ subst Alive (sym (on_data_current s bytes g here)) (record {
    one = a.one;
    shut = a.shut;
    made = a.made;
    short = remaining_short (g.tcp_buffer ++ bytes);
  })
  | inr other ↦ subst Alive (sym (on_data_other s bytes g other)) a
]

on_timer-Alive : (g : Gateway) → Alive g → Alive (on_timer g)
unfolding on_timer connect_pi
on_timer-Alive g a = elim (Bool-cases g.timer) [
  | inl set ↦ rw set (record { one = refl; shut = refl; made = omega arith; short = nothing_in })
  | inr unset ↦
      rw unset (record { one = sym unset ∙ a.one; shut = a.shut; made = a.made; short = a.short })
]

send_pi_outputs :
    (flushed : Bool) (bytes : List ℕ) (g : Gateway)
    → (os : List Output) × ((send_pi flushed bytes g).1 ≡ record g { outputs = os })
unfolding send_pi
send_pi_outputs flushed bytes g = elim (Option-cases g.tcp) [
  | inl gone ↦ (g.outputs, rw gone refl)
  | inr (s, there) ↦ elim (Bool-cases g.is_open) [
    | inl ready ↦ (g.outputs ++ (written s bytes ∷ []), rw (there, ready) refl)
    | inr shut ↦ (g.outputs, rw (there, shut) refl)
  ]
]

told_or_not :
    (sent : Bool) (b : ℕ) (g : Gateway)
    → Alive g
    → Alive (if sent then g else emit (answer b not_connected) g)
told_or_not true b g a = a
told_or_not false b g a = same-Alive g g.browsers _ a

answer_of-Alive :
    (flushed : Bool) (b : ℕ) (e : Encoded) (g : Gateway) → Alive g → Alive (answer_of flushed b e g)
answer_of-Alive flushed b type_error g a = same-Alive g g.browsers _ a
answer_of-Alive flushed b range_error g a = same-Alive g g.browsers _ a
answer_of-Alive flushed b (buffer bytes) g a =
    let (os, same) = send_pi_outputs flushed bytes g in
    told_or_not (send_pi flushed bytes g).0 b (send_pi flushed bytes g).1
      (subst Alive (sym same) (same-Alive g g.browsers os a))

step-Alive : (h : Happening) (g : Gateway) → Alive g → Alive (step h g)
unfolding step on_browser on_message
step-Alive (connected s) g a = on_connect-Alive s g a
step-Alive (broken s) g a = on_broken-Alive s g a
step-Alive (closed s) g a = on_close-Alive s g a
step-Alive (came s bytes) g a = on_data-Alive s bytes g a
step-Alive timer_fires g a = on_timer-Alive g a
step-Alive (browser_comes b) g a = same-Alive g (b ∷ g.browsers) _ a
step-Alive (browser_goes b) g a = same-Alive g _ g.outputs a
step-Alive (asked flushed b malformed) g a = same-Alive g g.browsers _ a
step-Alive (asked flushed b (no_text key)) g a = answer_of-Alive flushed b (fixed_command key) g a
step-Alive (asked flushed b (command cmd value)) g a =
    answer_of-Alive flushed b (command_message cmd value) g a

run_from-Alive : (hs : List Happening) (g : Gateway) → Alive g → Alive (run hs g)
unfolding run
run_from-Alive [] g a = a
run_from-Alive (h ∷ hs) g a = run_from-Alive hs (step h g) (step-Alive h g a)

started-Alive : Alive started
unfolding started
started-Alive = record { one = refl; shut = refl; made = omega arith; short = nothing_in }

-- Whatever happens, the gateway has a socket to the alarm server, or else a timer that makes one, and
-- never both; without a socket the connection does not count as open; and its buffer never holds a
-- whole message.
pub run-Alive : (hs : List Happening) → Alive (run hs started)
run-Alive hs = run_from-Alive hs started started-Alive
