-- ===== src/Client/Menus.antt =====
-- The menus and the main loop of client/main.c. A loop takes fuel; `none` means that it ran out.
use linux_veda_4sensor_tcp_c.Prelude.{
  ℕ, zero, suc, ◌%◌, ℤ, pos, negsuc, ◌==ℤ◌, leb, ◌&&◌, if◌then◌else◌, Option, none, some,
}
use linux_veda_4sensor_tcp_c.Protocol.{
  message, msg_cmd, msg_query, dev_led, dev_buzzer, dev_sensor, dev_segment, act_on, act_off,
  act_set_brightness, act_set_number, act_get_status, act_play_melody, act_get_lux, brightness_low,
  brightness_mid, brightness_high,
}
use linux_veda_4sensor_tcp_c.Client.Console.{
  Session, Print, main_menu, led_menu, brightness_menu, buzzer_menu, segment_menu, status_menu,
  help, wrong_input, wrong_number, print, send_msg, read_choice,
}

-- The shape of the four submenus: a menu, a choice, 0 to return, and what another choice does.
unfoldable pub submenu : Print → (ℤ → Session → Session) → ℕ → Session → Option Session
submenu menu act zero s = none
submenu menu act (suc fuel) s =
    let (c, s₁) = read_choice (print menu s) in
    let more = submenu menu act fuel (act c s₁) in if c ==ℤ pos 0 then some s₁ else more

unfoldable pub choose_brightness : Session → Session
choose_brightness s =
    let (b, s₁) = read_choice (print brightness_menu s) in
    if b ==ℤ pos 1
    then send_msg (message msg_cmd dev_led act_set_brightness brightness_low) s₁
    else if b ==ℤ pos 2
    then send_msg (message msg_cmd dev_led act_set_brightness brightness_mid) s₁
    else if b ==ℤ pos 3
    then send_msg (message msg_cmd dev_led act_set_brightness brightness_high) s₁
    else if b ==ℤ pos 0
    then s₁
    else print wrong_input s₁

unfoldable pub led_choice : ℤ → Session → Session
unfolding choose_brightness
led_choice c s =
    if c ==ℤ pos 1
    then send_msg (message msg_cmd dev_led act_on 0) s
    else if c ==ℤ pos 2
    then send_msg (message msg_cmd dev_led act_off 0) s
    else if c ==ℤ pos 3
    then choose_brightness s
    else print wrong_input s

unfoldable pub buzzer_choice : ℤ → Session → Session
buzzer_choice c s =
    if c ==ℤ pos 1
    then send_msg (message msg_cmd dev_buzzer act_on 0) s
    else if c ==ℤ pos 2
    then send_msg (message msg_cmd dev_buzzer act_off 0) s
    else if c ==ℤ pos 3
    then send_msg (message msg_cmd dev_buzzer act_play_melody 0) s
    else print wrong_input s

unfoldable pub segment_choice : ℤ → Session → Session
segment_choice (negsuc n) s = print wrong_number s
segment_choice (pos c) s =
    if leb 1 c && leb c 9
    then send_msg (message msg_cmd dev_segment act_set_number (c % 256)) s
    else if pos c ==ℤ pos 10
    then send_msg (message msg_cmd dev_segment act_off 0) s
    else print wrong_number s

unfoldable pub status_choice : ℤ → Session → Session
status_choice c s =
    if c ==ℤ pos 1
    then send_msg (message msg_query dev_led act_get_status 0) s
    else if c ==ℤ pos 2
    then send_msg (message msg_query dev_buzzer act_get_status 0) s
    else if c ==ℤ pos 3
    then send_msg (message msg_query dev_sensor act_get_status 0) s
    else print wrong_input s

abbrev pub menu_led : ℕ → Session → Option Session
menu_led = submenu led_menu led_choice

abbrev pub menu_buzzer : ℕ → Session → Option Session
menu_buzzer = submenu buzzer_menu buzzer_choice

abbrev pub menu_segment : ℕ → Session → Option Session
menu_segment = submenu segment_menu segment_choice

abbrev pub menu_status : ℕ → Session → Option Session
menu_status = submenu status_menu status_choice

-- A case of the `switch` of `main`, with the fuel for the loop of a submenu.
unfoldable pub main_choice : ℕ → ℤ → Session → Option Session
main_choice fuel c s =
    if c ==ℤ pos 1
    then menu_led fuel s
    else if c ==ℤ pos 2
    then menu_buzzer fuel s
    else if c ==ℤ pos 3
    then menu_segment fuel s
    else if c ==ℤ pos 4
    then menu_status fuel s
    else if c ==ℤ pos 5
    then some (send_msg (message msg_query dev_sensor act_get_lux 0) s)
    else if c ==ℤ pos 6
    then some (print help s)
    else some (print wrong_input s)

abbrev pub and_then : Option Session → (Session → Option Session) → Option Session
and_then none k = none
and_then (some s) k = k s

-- The loop of `main`, left by 0 and by -1.
unfoldable pub main_loop : ℕ → Session → Option Session
unfolding main_choice
main_loop zero s = none
main_loop (suc fuel) s =
    let (c, s₁) = read_choice (print main_menu s) in
    let more = and_then (main_choice fuel c s₁) (main_loop fuel) in
    if c ==ℤ pos 0 then some s₁ else if c ==ℤ negsuc 0 then some s₁ else more
