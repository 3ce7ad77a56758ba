-- ===== src/Client/ScreenLaws.antt =====
-- The menus of client/main.c offer what they act on.
use linux_veda_4sensor_tcp_c.Prelude.{
  ℕ, zero, suc, ◌%◌, ◌<◌, ◌≡◌, refl, ◌∙◌, ◌⊎◌, inl, inr, ◌==◌, leb, ◌&&◌, ◌||◌, Bool, true, false,
  Bool-cases, ℤ, pos, arith,
}
use linux_veda_4sensor_tcp_c.Protocol.{
  Message, message, msg_cmd, dev_segment, act_set_number, act_off,
}
use linux_veda_4sensor_tcp_c.Client.Console.{
  Session, Print, led_menu, buzzer_menu, segment_menu, status_menu, wrong_input, wrong_number,
  print, send_msg, digits_value,
}
use linux_veda_4sensor_tcp_c.Client.Menus.{
  choose_brightness, led_choice, buzzer_choice, segment_choice, status_choice,
}
use linux_veda_4sensor_tcp_c.Client.Screens.{screen, offers}

-- The four submenus, with what they print, what they do with a choice, and what they print for one
-- that they do not take.
pub data Submenu : Type 0 where
  of_led of_buzzer of_segment of_status : Submenu

abbrev pub menu : Submenu → Print
menu of_led = led_menu
menu of_buzzer = buzzer_menu
menu of_segment = segment_menu
menu of_status = status_menu

abbrev pub choose : Submenu → ℤ → Session → Session
choose of_led = led_choice
choose of_buzzer = buzzer_choice
choose of_segment = segment_choice
choose of_status = status_choice

abbrev pub complaint : Submenu → Print
complaint of_led = wrong_input
complaint of_buzzer = wrong_input
complaint of_segment = wrong_number
complaint of_status = wrong_input

-- A message is sent, or the menu for the brightness comes.
abbrev pub Acts : Submenu → ℕ → Session → Type 0
Acts m n s =
    ((k : Message) × (choose m (pos n) s ≡ send_msg k s))
    ⊎ (choose m (pos n) s ≡ choose_brightness s)

three_offers : (n : ℕ) → Bool
three_offers n = n == 1 || n == 2 || n == 3 || n == 0

led_offers : (n : ℕ) → offers (screen led_menu) n ≡ three_offers n
unfolding offers screen digits_value three_offers
led_offers n = ground arith

buzzer_offers : (n : ℕ) → offers (screen buzzer_menu) n ≡ three_offers n
unfolding offers screen digits_value three_offers
buzzer_offers n = ground arith

status_offers : (n : ℕ) → offers (screen status_menu) n ≡ three_offers n
unfolding offers screen digits_value three_offers
status_offers n = ground arith

segment_offers :
    (n : ℕ) → offers (screen segment_menu) n ≡ ((leb 1 n && leb n 9) || n == 10 || n == 0)
unfolding offers screen digits_value
segment_offers n = ground arith

led_case :
    (n : ℕ) (s : Session)
    → 0 < n
    → ((three_offers n ≡ true) × Acts of_led n s)
      ⊎ ((three_offers n ≡ false) × (led_choice (pos n) s ≡ print wrong_input s))
unfolding led_choice three_offers
led_case zero s h = absurd (omega arith)
led_case (suc zero) s h = inl (refl, inl (_, refl))
led_case (suc (suc zero)) s h = inl (refl, inl (_, refl))
led_case (suc (suc (suc zero))) s h = inl (refl, inr refl)
led_case (suc (suc (suc (suc n)))) s h = inr (ground arith, ground arith)

buzzer_case :
    (n : ℕ) (s : Session)
    → 0 < n
    → ((three_offers n ≡ true) × Acts of_buzzer n s)
      ⊎ ((three_offers n ≡ false) × (buzzer_choice (pos n) s ≡ print wrong_input s))
unfolding buzzer_choice three_offers
buzzer_case zero s h = absurd (omega arith)
buzzer_case (suc zero) s h = inl (refl, inl (_, refl))
buzzer_case (suc (suc zero)) s h = inl (refl, inl (_, refl))
buzzer_case (suc (suc (suc zero))) s h = inl (refl, inl (_, refl))
buzzer_case (suc (suc (suc (suc n)))) s h = inr (ground arith, ground arith)

status_case :
    (n : ℕ) (s : Session)
    → 0 < n
    → ((three_offers n ≡ true) × Acts of_status n s)
      ⊎ ((three_offers n ≡ false) × (status_choice (pos n) s ≡ print wrong_input s))
unfolding status_choice three_offers
status_case zero s h = absurd (omega arith)
status_case (suc zero) s h = inl (refl, inl (_, refl))
status_case (suc (suc zero)) s h = inl (refl, inl (_, refl))
status_case (suc (suc (suc zero))) s h = inl (refl, inl (_, refl))
status_case (suc (suc (suc (suc n)))) s h = inr (ground arith, ground arith)

segment_case :
    (n : ℕ) (s : Session)
    → 0 < n
    → ((((leb 1 n && leb n 9) || n == 10 || n == 0) ≡ true) × Acts of_segment n s)
      ⊎ ((((leb 1 n && leb n 9) || n == 10 || n == 0) ≡ false)
          × (segment_choice (pos n) s ≡ print wrong_number s))
unfolding segment_choice
segment_case n s h = elim (Bool-cases (leb 1 n && leb n 9)) [
  | inl low ↦
      inl (rw low refl, inl (message msg_cmd dev_segment act_set_number (n % 256), rw low refl))
  | inr high ↦ elim (Bool-cases (n == 10)) [
    | inl ten ↦
        inl (rw (high, ten) refl, inl (message msg_cmd dev_segment act_off 0, rw (high, ten) refl))
    | inr other ↦
        let not_zero : (n == 0) ≡ false = ground arith in
        inr (rw (high, other) not_zero, rw (high, other) refl)
  ]
]

-- The same of a test with the same value.
same_test :
    {P Q : Type 0} (a b : Bool)
    → a ≡ b
    → ((b ≡ true) × P) ⊎ ((b ≡ false) × Q)
    → ((a ≡ true) × P) ⊎ ((a ≡ false) × Q)
same_test a b e (inl (t, p)) = inl (e ∙ t, p)
same_test a b e (inr (f, q)) = inr (e ∙ f, q)

-- In each submenu, a number but 0, which leads back, is acted on exactly if the lines of the menu
-- offer it; for any other number only the complaint of the menu is printed.
pub offers-Acts :
    (m : Submenu) (n : ℕ) (s : Session)
    → 0 < n
    → ((offers (screen (menu m)) n ≡ true) × Acts m n s)
      ⊎ ((offers (screen (menu m)) n ≡ false) × (choose m (pos n) s ≡ print (complaint m) s))
offers-Acts of_led n s h = same_test _ (three_offers n) (led_offers n) (led_case n s h)
offers-Acts of_buzzer n s h = same_test _ (three_offers n) (buzzer_offers n) (buzzer_case n s h)
offers-Acts of_segment n s h = same_test _ _ (segment_offers n) (segment_case n s h)
offers-Acts of_status n s h = same_test _ (three_offers n) (status_offers n) (status_case n s h)
