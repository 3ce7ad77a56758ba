-- ===== src/Client/MenuLaws.antt =====
-- What the menus of client/main.c send, and where they end.
use linux_veda_4sensor_tcp_c.Prelude.{
  ℕ, zero, suc, ◌≡◌, refl, ◌∙◌, ◌⊎◌, inl, inr, ℤ, pos, negsuc, ◌==◌, ◌==ℤ◌, Bool, true, ◌&&◌, ◌||◌,
  if◌then◌else◌, Bool-cases, Option, none, some, [], All, arith,
}
use linux_veda_4sensor_tcp_c.Protocol.{
  Message, msg_cmd, msg_query, dev_led, dev_buzzer, dev_sensor, act_get_status, act_get_lux,
}
use linux_veda_4sensor_tcp_c.Server.Reply.{documented, is_parameterless}
use linux_veda_4sensor_tcp_c.Client.Console.{
  Session, Print, print, main_menu, led_menu, buzzer_menu, segment_menu, status_menu, read_choice,
}
use linux_veda_4sensor_tcp_c.Client.Menus.{
  submenu, choose_brightness, led_choice, buzzer_choice, segment_choice, status_choice, menu_led,
  menu_buzzer, menu_segment, menu_status, main_choice, main_loop, and_then,
}

-- A query that the server answers with a value; its own value is 0.
abbrev pub is_query : Message → Bool
is_query m =
    m.type == msg_query
    && m.value == 0
    && ((m.action == act_get_status
          && (m.device == dev_led || m.device == dev_buzzer || m.device == dev_sensor))
        || (m.action == act_get_lux && m.device == dev_sensor))

abbrev pub IsRequest : Message → Type 0
IsRequest m = ((m.type ≡ msg_cmd) × (documented m ≡ true)) ⊎ (is_query m ≡ true)

abbrev pub Sends : Session → Type 0
Sends s = All IsRequest s.sent

read_choice-sent : (s : Session) → (read_choice s).1.sent ≡ s.sent
unfolding read_choice
read_choice-sent s = refl

choose_brightness-Sends : (s : Session) → Sends s → Sends (choose_brightness s)
unfolding choose_brightness documented is_parameterless read_choice
choose_brightness-Sends s a = ground arith

led_choice-Sends : (c : ℤ) (s : Session) → Sends s → Sends (led_choice c s)
unfolding led_choice documented is_parameterless
led_choice-Sends c s a = ground (arith, choose_brightness-Sends s a)

buzzer_choice-Sends : (c : ℤ) (s : Session) → Sends s → Sends (buzzer_choice c s)
unfolding buzzer_choice documented is_parameterless
buzzer_choice-Sends c s a = ground arith

segment_choice-Sends : (c : ℤ) (s : Session) → Sends s → Sends (segment_choice c s)
unfolding segment_choice documented is_parameterless
segment_choice-Sends (negsuc n) s a = a
segment_choice-Sends (pos c) s a = ground arith

status_choice-Sends : (c : ℤ) (s : Session) → Sends s → Sends (status_choice c s)
unfolding status_choice
status_choice-Sends c s a = ground arith

pub read_choice_at_end : (s : Session) → s.input ≡ [] → read_choice s ≡ (negsuc 0, s)
unfolding read_choice
read_choice_at_end s e = ground arith

-- A submenu whose choice -1 reads nothing is never left at the end of the input.
pub submenu_at_end :
    (menu : Print) (act : ℤ → Session → Session)
    → ((s : Session) → (act (negsuc 0) s).input ≡ s.input)
    → (fuel : ℕ) (s : Session) → s.input ≡ []
    → submenu menu act fuel s ≡ none
unfolding submenu
submenu_at_end menu act keeps zero s e = refl
submenu_at_end menu act keeps (suc fuel) s e =
    rw (read_choice_at_end (print menu s) e) (
      submenu_at_end menu act keeps fuel (act (negsuc 0) (print menu s)) (keeps (print menu s) ∙ e))

-- However long it runs, a submenu that finds its input at the end is not left: it takes the -1 of
-- `read_choice` for a wrong choice and asks again, where the main menu returns.
pub menus_at_end :
    (fuel : ℕ) (s : Session)
    → s.input ≡ []
    → (menu_led fuel s ≡ none)
      × (menu_buzzer fuel s ≡ none)
      × (menu_segment fuel s ≡ none)
      × (menu_status fuel s ≡ none)
      × (main_loop (suc fuel) s ≡ some (print main_menu s))
unfolding led_choice buzzer_choice segment_choice status_choice main_loop
menus_at_end fuel s e = (
  submenu_at_end led_menu led_choice (λ t. refl) fuel s e,
  submenu_at_end buzzer_menu buzzer_choice (λ t. refl) fuel s e,
  submenu_at_end segment_menu segment_choice (λ t. refl) fuel s e,
  submenu_at_end status_menu status_choice (λ t. refl) fuel s e,
  rw (read_choice_at_end (print main_menu s) e) refl,
)

-- Whatever is chosen in whichever submenu, each message that is sent for it is a command that the
-- server's document lists or a query that the server answers: a session that has sent only such
-- messages has still done so after the choice.
pub choices-Sends :
    (c : ℤ) (s : Session)
    → Sends s
    → Sends (led_choice c s)
      × Sends (buzzer_choice c s)
      × Sends (segment_choice c s)
      × Sends (status_choice c s)
choices-Sends c s a = (
  led_choice-Sends c s a,
  buzzer_choice-Sends c s a,
  segment_choice-Sends c s a,
  status_choice-Sends c s a,
)

submenu-Sends :
    (menu : Print) (act : ℤ → Session → Session)
    → ((c : ℤ) (s : Session) → Sends s → Sends (act c s))
    → (fuel : ℕ) (s t : Session) → Sends s
    → submenu menu act fuel s ≡ some t
    → Sends t
unfolding submenu read_choice
submenu-Sends menu act keeps zero s t a e = cc
submenu-Sends menu act keeps (suc fuel) s t a e =
    elim (Bool-cases ((read_choice (print menu s)).0 ==ℤ pos 0)) [
      | inl back ↦ ground (arith, back)
      | inr on ↦
          submenu-Sends menu act keeps fuel
            (act (read_choice (print menu s)).0 (read_choice (print menu s)).1) t (keeps _ _ a)
            (rw (on) at e)
    ]

main_choice-Sends :
    (fuel : ℕ) (c : ℤ) (s t : Session) → Sends s → main_choice fuel c s ≡ some t → Sends t
unfolding main_choice
main_choice-Sends fuel c s t a e = ground (
  arith,
  submenu-Sends led_menu led_choice led_choice-Sends fuel s t a,
  submenu-Sends buzzer_menu buzzer_choice buzzer_choice-Sends fuel s t a,
  submenu-Sends segment_menu segment_choice segment_choice-Sends fuel s t a,
  submenu-Sends status_menu status_choice status_choice-Sends fuel s t a,
)

main_loop-step :
    (c : ℤ) (s t : Session) (more : Option Session)
    → Sends s
    → (more ≡ some t → Sends t)
    → (if c ==ℤ pos 0 then some s else if c ==ℤ negsuc 0 then some s else more) ≡ some t
    → Sends t
main_loop-step c s t more a next e = elim (Bool-cases (c ==ℤ pos 0)) [
  | inl zero_choice ↦ ground (arith, zero_choice)
  | inr other ↦ elim (Bool-cases (c ==ℤ negsuc 0)) [
    | inl end ↦ ground (arith, end, other)
    | inr go ↦ next (rw (other, go) at e)
  ]
]

and_then-Sends :
    (o : Option Session) (k : Session → Option Session) (t : Session)
    → ((u : Session) → o ≡ some u → Sends u)
    → ((u : Session) → Sends u → k u ≡ some t → Sends t)
    → and_then o k ≡ some t
    → Sends t
and_then-Sends none k t first next e = cc
and_then-Sends (some u) k t first next e = next u (first u refl) e

-- If a run of the client's main loop ends, then each message that it has sent is a command that
-- the server's document lists or a query that the server answers, provided that all sent before
-- it were.
pub main_loop-Sends : (fuel : ℕ) (s t : Session) → Sends s → main_loop fuel s ≡ some t → Sends t
unfolding main_loop read_choice
main_loop-Sends zero s t a e = cc
main_loop-Sends (suc fuel) s t a e =
    let (c, u) = read_choice (print main_menu s) in
    main_loop-step c u t (and_then (main_choice fuel c u) (main_loop fuel)) a
      (and_then-Sends (main_choice fuel c u) (main_loop fuel) t
        (λ v. main_choice-Sends fuel c u v a) (λ v. main_loop-Sends fuel v t))
      e
