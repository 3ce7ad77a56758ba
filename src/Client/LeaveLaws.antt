-- ===== src/Client/LeaveLaws.antt =====
-- That the menus of client/main.c can always be left.
use linux_veda_4sensor_tcp_c.Prelude.{
  ℕ, zero, suc, ◌<◌, ◌≡◌, refl, ◌⊎◌, inl, inr, ℤ, pos, negsuc, ◌==ℤ◌, Bool-cases, some, length,
  arith,
}
use linux_veda_4sensor_tcp_c.Protocol.{message, msg_query, dev_sensor, act_get_lux}
use linux_veda_4sensor_tcp_c.Client.Console.{
  Session, Print, print, main_menu, led_menu, buzzer_menu, segment_menu, status_menu, help,
  wrong_input, send_msg, read_choice,
}
use linux_veda_4sensor_tcp_c.Client.Menus.{
  submenu, choose_brightness, led_choice, buzzer_choice, segment_choice, status_choice, main_choice,
  main_loop,
}
use linux_veda_4sensor_tcp_c.Client.ZeroLaws.{
  EndsInZeros, Has, fewer, read_choice-Has, read_choice-reads,
}
use linux_veda_4sensor_tcp_c.Client.FuelLaws.{
  IsChoice, led_choice-IsChoice, buzzer_choice-IsChoice, segment_choice-IsChoice,
  status_choice-IsChoice, main_choice_shorter,
}

-- A choice in a submenu reads one line at most.
abbrev Leaves : (ℤ → Session → Session) → Type 0
Leaves act = (c : ℤ) (s : Session) → Has 3 s.input → Has 2 (act c s).input

choose_brightness_input : (s : Session) → (choose_brightness s).input ≡ (read_choice s).1.input
unfolding choose_brightness read_choice
choose_brightness_input s = ground arith

choose_brightness-Has : (s : Session) → Has 3 s.input → Has 2 (choose_brightness s).input
choose_brightness-Has s h =
    rw (choose_brightness_input s) (elim (read_choice-Has 2 s h) [
      | inl more ↦ fewer 2 3 _ (omega arith) more
      | inr line ↦ line.1
    ])

led_choice_input :
    (c : ℤ) (s : Session)
    → ((led_choice c s).input ≡ s.input) ⊎ ((led_choice c s).input ≡ (choose_brightness s).input)
unfolding led_choice
led_choice_input c s = elim (Bool-cases (c ==ℤ pos 1)) [
  | inl on ↦ inl (rw on refl)
  | inr a ↦ rw a (elim (Bool-cases (c ==ℤ pos 2)) [
    | inl off ↦ inl (rw off refl)
    | inr b ↦ rw b (elim (Bool-cases (c ==ℤ pos 3)) [
      | inl bright ↦ inr (rw bright refl)
      | inr wrong ↦ inl (rw wrong refl)
    ])
  ])
]

led_choice-Leaves : Leaves led_choice
led_choice-Leaves c s h = elim (led_choice_input c s) [
  | inl same ↦ rw same (fewer 2 3 s.input (omega arith) h)
  | inr bright ↦ rw bright (choose_brightness-Has s h)
]

-- The other submenus read nothing more.
unread :
    (act : ℤ → Session → Session) → ((c : ℤ) (s : Session) → (act c s).input ≡ s.input) → Leaves act
unread act same c s h = rw (same c s) (fewer 2 3 s.input (omega arith) h)

buzzer_choice-Leaves : Leaves buzzer_choice
unfolding buzzer_choice
buzzer_choice-Leaves = unread buzzer_choice (λ c s. ground arith)

segment_choice_input : (c : ℤ) (s : Session) → (segment_choice c s).input ≡ s.input
unfolding segment_choice
segment_choice_input (negsuc n) s = refl
segment_choice_input (pos n) s = ground arith

segment_choice-Leaves : Leaves segment_choice
segment_choice-Leaves = unread segment_choice segment_choice_input

status_choice-Leaves : Leaves status_choice
unfolding status_choice
status_choice-Leaves = unread status_choice (λ c s. ground arith)

-- A submenu is left, with a line for the main menu.
submenu-Leaves :
    (menu : Print) (act : ℤ → Session → Session)
    → IsChoice act
    → Leaves act
    → (fuel : ℕ) (s : Session) → length s.input < fuel
    → Has 2 s.input
    → (t : Session) × (submenu menu act fuel s ≡ some t) × Has 1 t.input
unfolding submenu
submenu-Leaves menu act choice leaves zero s h two = absurd (omega (h, arith))
submenu-Leaves menu act choice leaves (suc fuel) s h two =
    let (c, s₁) = read_choice (print menu s) in
    let less = read_choice-reads 1 (print menu s) two in
    elim (read_choice-Has 1 (print menu s) two) [
      | inr (back, one) ↦ (s₁, rw back refl, one)
      | inl three ↦ elim (Bool-cases (c ==ℤ pos 0)) [
        | inl back ↦ (s₁, rw back refl, fewer 1 3 s₁.input (omega arith) three)
        | inr on ↦
            let (t, e, one) =
              submenu-Leaves menu act choice leaves fuel (act c s₁)
                (omega (h, less, choice.shorter c s₁, arith)) (leaves c s₁ three) in
            (t, rw on e, one)
      ]
    ]

-- The cases of the `switch` of `main`.
main_choice-Leaves :
    (fuel : ℕ) (c : ℤ) (s : Session)
    → length s.input < fuel
    → Has 3 s.input
    → (t : Session) × (main_choice fuel c s ≡ some t) × Has 1 t.input
unfolding main_choice
main_choice-Leaves fuel c s h three =
    let two = fewer 2 3 s.input (omega arith) three in
    let one = fewer 1 3 s.input (omega arith) three in
    elim (Bool-cases (c ==ℤ pos 1)) [
      | inl led ↦
          rw led
            (submenu-Leaves led_menu led_choice led_choice-IsChoice led_choice-Leaves fuel s h two)
      | inr a ↦ rw a (elim (Bool-cases (c ==ℤ pos 2)) [
        | inl buzzer ↦ rw buzzer (
            submenu-Leaves buzzer_menu buzzer_choice buzzer_choice-IsChoice buzzer_choice-Leaves
              fuel s h two)
        | inr b ↦ rw b (elim (Bool-cases (c ==ℤ pos 3)) [
          | inl segment ↦ rw segment (
              submenu-Leaves segment_menu segment_choice segment_choice-IsChoice
                segment_choice-Leaves fuel s h two)
          | inr d ↦ rw d (elim (Bool-cases (c ==ℤ pos 4)) [
            | inl status ↦ rw status (
                submenu-Leaves status_menu status_choice status_choice-IsChoice status_choice-Leaves
                  fuel s h two)
            | inr e ↦ rw e (elim (Bool-cases (c ==ℤ pos 5)) [
              | inl lux ↦
                  rw lux (send_msg (message msg_query dev_sensor act_get_lux 0) s, refl, one)
              | inr f ↦ rw f (elim (Bool-cases (c ==ℤ pos 6)) [
                | inl info ↦ rw info (print help s, refl, one)
                | inr g ↦ rw g (print wrong_input s, refl, one)
              ])
            ])
          ])
        ])
      ])
    ]

main_loop-Leaves :
    (fuel : ℕ) (s : Session)
    → length s.input < fuel
    → Has 1 s.input
    → (t : Session) × (main_loop fuel s ≡ some t)
unfolding main_loop
main_loop-Leaves zero s h one = absurd (omega (h, arith))
main_loop-Leaves (suc fuel) s h one =
    let (c, s₁) = read_choice (print main_menu s) in
    let less = read_choice-reads 0 (print main_menu s) one in
    elim (read_choice-Has 0 (print main_menu s) one) [
      | inr (back, left) ↦ (s₁, rw back refl)
      | inl three ↦ elim (Bool-cases (c ==ℤ pos 0)) [
        | inl back ↦ (s₁, rw back refl)
        | inr a ↦ elim (Bool-cases (c ==ℤ negsuc 0)) [
          | inl end ↦ (s₁, rw (a, end) refl)
          | inr b ↦
              let (u, chosen, more) = main_choice-Leaves fuel c s₁ (omega (h, less, arith)) three in
              let (t, e) =
                main_loop-Leaves fuel u
                  (omega (h, less, main_choice_shorter fuel c s₁ u chosen, arith)) more in
              (t, rw (a, b, chosen) e)
        ]
      ]
    ]

-- The main loop ends whenever the input ends with the end of a line and three lines with the
-- choice 0, whatever was typed before: one for the brightness, one for the submenu, one for the main
-- menu. As many rounds as the input has bytes, and one, are enough.
pub main_loop-Returns :
    (fuel : ℕ) (s : Session)
    → length s.input < fuel
    → EndsInZeros s.input
    → (t : Session) × (main_loop fuel s ≡ some t)
main_loop-Returns fuel s enough ends = main_loop-Leaves fuel s enough (inl ends)
