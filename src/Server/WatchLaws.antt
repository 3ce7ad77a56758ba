-- ===== src/Server/WatchLaws.antt =====
-- When the sensor thread of server/handler.c raises the alarm.
use linux_veda_4sensor_tcp_c.Prelude.{
  ℕ, suc, ◌<◌, ◌≡◌, false, refl, ◌∙◌, sym, subst, ℤ, pos, negsuc, leb, if◌then◌else◌, List, [], ◌∷◌,
  arith,
}
use linux_veda_4sensor_tcp_c.Devices.Sensor.{sensor_read}
use linux_veda_4sensor_tcp_c.Server.State.{World, Env, set_board, SensorThread, polling, alarming}
use linux_veda_4sensor_tcp_c.Server.Clients.{broadcast_msg}
use linux_veda_4sensor_tcp_c.Server.Dispatch.{dispatch_led, dispatch_buzzer}
use linux_veda_4sensor_tcp_c.Server.Melody.{stop_melody_thread}
use linux_veda_4sensor_tcp_c.Server.Watch.{
  light_threshold, judge, sensor_thread_step, sensor_thread_from, sound_alarm,
}

-- Rounds of the sensor thread, the last one first.
abbrev pub watch : List Env → World → World
watch [] w = w
watch (e ∷ es) w = sensor_thread_step e (watch es w)

-- The readings of these rounds, the last one first.
abbrev pub seen : List Env → World → List ℤ
seen [] w = []
seen (e ∷ es) w = (sensor_read e.transfers (watch es w).board).0 ∷ seen es w

-- How many of the last readings were dark without a bright one between; failed readings are not
-- counted and do not matter.
abbrev pub dark_run : List ℤ → ℕ
dark_run [] = 0
dark_run (negsuc n ∷ ls) = dark_run ls
dark_run (pos l ∷ ls) = let rest = dark_run ls in if leb light_threshold l then suc rest else 0

-- At no time so far were the last three readings dark.
abbrev pub IsCalm : List ℤ → Type 0
IsCalm [] = Unit {0}
IsCalm (l ∷ ls) = (dark_run (l ∷ ls) < 3) × IsCalm ls

-- The state of the thread that `n` dark readings call for.
abbrev pub vigilance : ℕ → SensorThread
vigilance n = if leb 3 n then alarming else polling n

judge-vigilance :
    (env : Env) (lux : ℤ) (ls : List ℤ) (w : World)
    → w.sensor ≡ polling (dark_run ls)
    → w.state.alarm_active ≡ 0
    → dark_run ls < 3
    → ((judge env (dark_run ls) lux w).sensor ≡ vigilance (dark_run (lux ∷ ls)))
      × ((judge env (dark_run ls) lux w).state.alarm_active
          ≡ (if leb 3 (dark_run (lux ∷ ls)) then 1 else 0))
unfolding judge sound_alarm dispatch_led dispatch_buzzer stop_melody_thread broadcast_msg
judge-vigilance env (negsuc n) ls w s a c = ground arith
judge-vigilance env (pos l) ls w s a c = ground arith

-- A state of the sensor thread that `n` dark readings call for, with the alarm flag to match.
pub record Vigilant (n : ℕ) (w : World) : Type 0 where
  pub thread : w.sensor ≡ vigilance n
  pub alarm : w.state.alarm_active ≡ (if leb 3 n then 1 else 0)

polling-step :
    (env : Env) (ls : List ℤ) (w : World)
    → w.sensor ≡ polling (dark_run ls)
    → w.state.alarm_active ≡ 0
    → dark_run ls < 3
    → Vigilant (dark_run ((sensor_read env.transfers w.board).0 ∷ ls)) (sensor_thread_step env w)
unfolding sensor_thread_step
polling-step env ls w s a c =
    let (lux, b) = sensor_read env.transfers w.board in
    let (thread, alarm) = judge-vigilance env lux ls (set_board b w) s a c in
    subst (λ t. Vigilant (dark_run (lux ∷ ls)) (sensor_thread_from t env w)) (sym s)
      (record { thread = thread; alarm = alarm })

-- While it stays calm, the thread polls, and its local `consec` is the number of dark readings.
calm-watch :
    (es : List Env) (w : World)
    → w.sensor ≡ polling 0
    → w.state.alarm_active ≡ 0
    → IsCalm (seen es w)
    → ((watch es w).sensor ≡ polling (dark_run (seen es w)))
      × ((watch es w).state.alarm_active ≡ 0)
      × (dark_run (seen es w) < 3)
calm-watch [] w s a c = (s, a, omega arith)
calm-watch (e ∷ es) w s a c =
    let (s', a', few) = calm-watch es w s a c.1 in
    let v = polling-step e (seen es w) (watch es w) s' a' few in
    let calm : leb 3 (dark_run (seen (e ∷ es) w)) ≡ false = ground (arith, c.0) in
    (v.thread ∙ rw calm refl, v.alarm ∙ rw calm refl, c.0)

-- From a quiet start, and as long as at no time the last three readings that did not fail were all
-- dark (175 or more), the next round raises the alarm exactly if it makes them so; failed readings
-- between them do not matter. Otherwise the thread goes on polling, with the alarm off.
pub watch-Vigilant :
    (e : Env) (es : List Env) (w : World)
    → w.sensor ≡ polling 0
    → w.state.alarm_active ≡ 0
    → IsCalm (seen es w)
    → Vigilant (dark_run (seen (e ∷ es) w)) (watch (e ∷ es) w)
watch-Vigilant e es w s a c =
    let (s', a', few) = calm-watch es w s a c in polling-step e (seen es w) (watch es w) s' a' few
