-- ===== src/Server/LedOrders.antt =====
-- Two commands for the LED at the same time: handle_led_command of server/handler.c takes the lock of
-- `g_state` for the flag, and then the lock of the mailbox in `dispatch_led`.
use linux_veda_4sensor_tcp_c.Prelude.{
  ◌≤◌, ◌≡◌, refl, ◌⊎◌, inl, inr, ==ℤ_refl, ◌==◌, if◌then◌else◌, some, List, [], ◌∷◌, arith,
}
use linux_veda_4sensor_tcp_c.Protocol.{
  Message, act_on, act_off, act_set_brightness, brightness_low, brightness_high,
}
use linux_veda_4sensor_tcp_c.Devices.Led.{led_on, led_off, led_set_brightness}
use linux_veda_4sensor_tcp_c.Devices.Readback.{duty}
use linux_veda_4sensor_tcp_c.Server.State.{World}
use linux_veda_4sensor_tcp_c.Server.Dispatch.{dispatch_led, led_thread_step}
use linux_veda_4sensor_tcp_c.Server.Commands.{set_led, handle_led_command}
use linux_veda_4sensor_tcp_c.Server.LedLaws.{LedAgrees, next_light}

-- A command that is not refused.
abbrev pub IsLedCommand : Message → Type 0
IsLedCommand c =
    (c.action ≡ act_on)
    ⊎ (c.action ≡ act_off)
    ⊎ ((c.action ≡ act_set_brightness) × (brightness_low ≤ c.value) × (c.value ≤ brightness_high))

-- The two critical sections of such a command.
unfoldable pub set_flag : Message → World → World
set_flag c w =
    if c.action == act_on
    then record w { state = record (w.state) { led_state = 1 } }
    else if c.action == act_off
    then set_led 0 0 w
    else set_led 1 c.value w

unfoldable pub post : Message → World → World
unfolding dispatch_led
post c w = dispatch_led c.action (if c.action == act_set_brightness then c.value else 0) w

-- What runs without interruption is the handler.
handler-post :
    (c : Message) (w : World) → IsLedCommand c → (handle_led_command c w).1 ≡ post c (set_flag c w)
unfolding handle_led_command post set_flag
handler-post c w k = ground arith

-- The critical sections of one or more clients' commands.
pub data Section : Type 0 where
  flag box : Message → Section

abbrev perform_one : Section → World → World
perform_one (flag c) w = set_flag c w
perform_one (box c) w = post c w

unfoldable pub perform : List Section → World → World
unfolding set_flag post
perform [] w = w
perform (h ∷ hs) w = perform hs (perform_one h w)

abbrev pub sections : Message → List Section
sections c = flag c ∷ box c ∷ []

-- `zs` interleaves `xs` and `ys`.
pub data Merge : List Section → List Section → List Section → Type 0 where
  done : Merge [] [] []
  left : {h : Section} {xs ys zs : List Section} → Merge xs ys zs → Merge (h ∷ xs) ys (h ∷ zs)
  right : {h : Section} {xs ys zs : List Section} → Merge xs ys zs → Merge xs (h ∷ ys) (h ∷ zs)

-- The one client sets the flag last, and the other the mailbox.
abbrev pub crossed : Message → Message → List Section
crossed a b = flag a ∷ flag b ∷ box b ∷ box a ∷ []

-- The last flag and the last mailbox are those of one command.
last-LedAgrees :
    (c : Message) (w v : World)
    → IsLedCommand c
    → v.state.led_state ≡ (set_flag c w).state.led_state
    → v.led_cmd ≡ (post c w).led_cmd
    → LedAgrees v
unfolding set_flag post led_thread_step led_on led_off led_set_brightness duty
last-LedAgrees c w v k f m = ground (arith, ==ℤ_refl v.board.led_pin)

-- Two commands for the LED that are not refused and are served at the same time leave the flag
-- and the light in agreement, in whatever order their critical sections come, unless one of them
-- sets the flag first and the mailbox last, with both sections of the other between.
pub two_commands :
    (a b : Message) (zs : List Section) (w : World)
    → IsLedCommand a
    → IsLedCommand b
    → Merge (sections a) (sections b) zs
    → LedAgrees (perform zs w) ⊎ ((zs ≡ crossed a b) ⊎ (zs ≡ crossed b a))
unfolding perform set_flag post
two_commands a b zs w ka kb (left (left (right (right done)))) =
    inl (last-LedAgrees b (perform (sections a) w) _ kb refl refl)
two_commands a b zs w ka kb (left (right (left (right done)))) =
    inl (last-LedAgrees b (perform (flag a ∷ []) w) _ kb refl refl)
two_commands a b zs w ka kb (left (right (right (left done)))) = inr (inl refl)
two_commands a b zs w ka kb (right (right (left (left done)))) =
    inl (last-LedAgrees a (perform (sections b) w) _ ka refl refl)
two_commands a b zs w ka kb (right (left (right (left done)))) =
    inl (last-LedAgrees a (perform (flag b ∷ []) w) _ ka refl refl)
two_commands a b zs w ka kb (right (left (left (right done)))) = inr (inr refl)

-- There is an order of the critical sections of a command that switches the LED on and one that
-- switches it off in which flag and light do not agree: when both sections of the latter fall
-- between those of the former, the LED stays lit while `led_state`, which clients are told, is 0.
pub on_crosses_off :
    (a b : Message) (w : World)
    → a.action ≡ act_on
    → b.action ≡ act_off
    → Merge (sections a) (sections b) (crossed a b)
      × ((perform (crossed a b) w).state.led_state ≡ 0)
      × (next_light (perform (crossed a b) w) ≡ some 100)
unfolding perform set_flag post led_thread_step led_on duty
on_crosses_off a b w on off =
    (left (right (right (left done))), ground arith, ground (arith, ==ℤ_refl w.board.led_pin))
