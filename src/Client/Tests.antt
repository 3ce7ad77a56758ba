-- ===== src/Client/Tests.antt =====
-- Runs of client/main.c on typed input, and the theorems at these.
use linux_veda_4sensor_tcp_c.Prelude.{arith, ℕ, ◌≡◌, refl, some, none, List, [], ◌∷◌}
use linux_veda_4sensor_tcp_c.Protocol.{message, msg_cmd, dev_led, act_set_brightness}
use linux_veda_4sensor_tcp_c.Client.Console.{
  Session, main_menu, led_menu, brightness_menu, wrong_input, take_line, atoi, print, read_choice,
}
use linux_veda_4sensor_tcp_c.Client.Menus.{
  submenu, choose_brightness, led_choice, menu_led, menu_buzzer, menu_segment, menu_status,
  main_loop,
}
use linux_veda_4sensor_tcp_c.Client.ZeroLaws.{zeros}
use linux_veda_4sensor_tcp_c.Client.LeaveLaws.{main_loop-Returns}
use linux_veda_4sensor_tcp_c.Client.MenuLaws.{Sends, menus_at_end, main_loop-Sends}

abbrev typed : List ℕ → Session
typed bs = record { input = bs; sent = []; printed = [] }

-- "1", "3" and "2" set the LED's brightness, "5" asks in vain, and "0" leaves twice.
abbrev pub brighten : Session
brighten =
    typed
      (b'1' ∷ b'\n' ∷ b'3' ∷ b'\n' ∷ b'2' ∷ b'\n' ∷ b'5' ∷ b'\n' ∷ b'0' ∷ b'\n' ∷ b'0' ∷ b'\n' ∷ [])

abbrev pub left : Session
left = record {
  input = [];
  sent = message msg_cmd dev_led act_set_brightness 2 ∷ [];
  printed =
      main_menu ∷ led_menu ∷ wrong_input ∷ led_menu ∷ brightness_menu ∷ led_menu ∷ main_menu ∷ [];
}

pub brighten_lem : main_loop 4 brighten ≡ some left
unfolding main_loop submenu led_choice choose_brightness read_choice take_line atoi
brighten_lem = refl

main_loop-Sends_example : Sends left
main_loop-Sends_example = main_loop-Sends 4 brighten left tt brighten_lem

-- Nothing is typed.
menus_at_end_example :
    (menu_led 100 (typed []) ≡ none)
    × (menu_buzzer 100 (typed []) ≡ none)
    × (menu_segment 100 (typed []) ≡ none)
    × (menu_status 100 (typed []) ≡ none)
    × (main_loop 101 (typed []) ≡ some (print main_menu (typed [])))
menus_at_end_example = menus_at_end 100 (typed []) refl

-- "07", and what is typed behind it.
abbrev seven : Session
seven = typed (b'0' ∷ b'7' ∷ b'\n' ∷ b'0' ∷ [])

-- The input stands in the brightness menu when the three lines come.
main_loop-Returns_example :
    (t : Session) × (main_loop 20 (typed (b'1' ∷ b'\n' ∷ b'3' ∷ b'\n' ∷ zeros 3)) ≡ some t)
main_loop-Returns_example =
    main_loop-Returns 20 (typed (b'1' ∷ b'\n' ∷ b'3' ∷ b'\n' ∷ zeros 3)) (omega arith)
      (b'1' ∷ b'\n' ∷ b'3' ∷ [], refl)
