-- ===== src/Client/Screens.antt =====
-- The menus and the help of client/main.c as they are printed. A text is the list of its code points.
use linux_veda_4sensor_tcp_c.Prelude.{
  ℕ, ◌+◌, ◌*◌, ◌-◌, ◌==◌, leb, if◌then◌else◌, Bool, false, ◌&&◌, ◌||◌, Option, none, some, List, [],
  ◌∷◌,
}
use linux_veda_4sensor_tcp_c.Process.Text.{bytes_of}
use linux_veda_4sensor_tcp_c.Client.Console.{
  Print, main_menu, led_menu, brightness_menu, buzzer_menu, segment_menu, status_menu, help,
  wrong_input, wrong_number, is_digit, digits_value,
}

abbrev pub show_main_menu : List (List ℕ)
show_main_menu =
    ([])
    ∷ bytes_of "  ╔═══════════════════════════════════╗"
    ∷ bytes_of "  ║   스마트 경보 시스템 클라이언트   ║"
    ∷ bytes_of "  ╠═══════════════════════════════════╣"
    ∷ bytes_of "  ║  1. LED 제어                      ║"
    ∷ bytes_of "  ║  2. 부저 제어                     ║"
    ∷ bytes_of "  ║  3. 세그먼트 제어 (카운트다운)    ║"
    ∷ bytes_of "  ║  4. 상태 조회                     ║"
    ∷ bytes_of "  ║  5. 조도 수치 확인                ║"
    ∷ bytes_of "  ║  6. 도움말                        ║"
    ∷ bytes_of "  ║  0. 종료                          ║"
    ∷ bytes_of "  ╚═══════════════════════════════════╝"
    ∷ []

abbrev pub led_menu_text : List (List ℕ)
led_menu_text =
    ([])
    ∷ bytes_of "  ┌─────────────────────────┐"
    ∷ bytes_of "  │      LED 제어           │"
    ∷ bytes_of "  ├─────────────────────────┤"
    ∷ bytes_of "  │  1. LED ON              │"
    ∷ bytes_of "  │  2. LED OFF             │"
    ∷ bytes_of "  │  3. 밝기 설정           │"
    ∷ bytes_of "  │  0. 뒤로                │"
    ∷ bytes_of "  └─────────────────────────┘"
    ∷ []

abbrev pub brightness_menu_text : List (List ℕ)
brightness_menu_text =
    ([])
    ∷ bytes_of "  ┌─────────────────────────┐"
    ∷ bytes_of "  │      LED 밝기 설정      │"
    ∷ bytes_of "  ├─────────────────────────┤"
    ∷ bytes_of "  │  1. 낮음 (25%)          │"
    ∷ bytes_of "  │  2. 보통 (50%)          │"
    ∷ bytes_of "  │  3. 높음 (100%)         │"
    ∷ bytes_of "  │  0. 뒤로                │"
    ∷ bytes_of "  └─────────────────────────┘"
    ∷ []

abbrev pub buzzer_menu_text : List (List ℕ)
buzzer_menu_text =
    ([])
    ∷ bytes_of "  ┌───────────────────────────┐"
    ∷ bytes_of "  │      부저 제어            │"
    ∷ bytes_of "  ├───────────────────────────┤"
    ∷ bytes_of "  │  1. 부저 ON               │"
    ∷ bytes_of "  │  2. 부저 OFF              │"
    ∷ bytes_of "  │  3. 엘리제를 위해여 재생  │"
    ∷ bytes_of "  │  0. 뒤로                  │"
    ∷ bytes_of "  └───────────────────────────┘"
    ∷ []

abbrev pub segment_menu_text : List (List ℕ)
segment_menu_text =
    ([])
    ∷ bytes_of "  ┌─────────────────────────┐"
    ∷ bytes_of "  │   세그먼트 카운트다운   │"
    ∷ bytes_of "  ├─────────────────────────┤"
    ∷ bytes_of "  │  1~9: 카운트다운 시작   │"
    ∷ bytes_of "  │  10 : 카운트다운 중지   │"
    ∷ bytes_of "  │  0  : 뒤로              │"
    ∷ bytes_of "  └─────────────────────────┘"
    ∷ []

abbrev pub status_menu_text : List (List ℕ)
status_menu_text =
    ([])
    ∷ bytes_of "  ┌─────────────────────────┐"
    ∷ bytes_of "  │      상태 조회          │"
    ∷ bytes_of "  ├─────────────────────────┤"
    ∷ bytes_of "  │  1. LED 상태            │"
    ∷ bytes_of "  │  2. 부저 상태           │"
    ∷ bytes_of "  │  3. 센서 상태           │"
    ∷ bytes_of "  │  0. 뒤로                │"
    ∷ bytes_of "  └─────────────────────────┘"
    ∷ []

abbrev pub print_help : List (List ℕ)
print_help =
    ([])
    ∷ bytes_of "  ┌───────────────────────────────────────┐"
    ∷ bytes_of "  │         스마트 경보 시스템 도움말     │"
    ∷ bytes_of "  ├───────────────────────────────────────┤"
    ∷ bytes_of "  │  1. LED 제어   — ON / OFF / 밝기 설정 │"
    ∷ bytes_of "  │  2. 부저 제어  — ON / OFF / 멜로디    │"
    ∷ bytes_of "  │  3. 세그먼트   — 1~9 카운트다운 시작 │"
    ∷ bytes_of "  │  4. 상태 조회  — LED/부저/센서 확인   │"
    ∷ bytes_of "  │  5. 조도 수치  — 현재 밝기 수치 조회  │"
    ∷ bytes_of "  │  6. 도움말                            │"
    ∷ bytes_of "  │  0. 종료                              │"
    ∷ bytes_of "  ├───────────────────────────────────────┤"
    ∷ bytes_of "  │  침입 감지 시 서버가 자동으로 이벤트  │"
    ∷ bytes_of "  │  메시지를 전송합니다.                 │"
    ∷ bytes_of "  └───────────────────────────────────────┘"
    ∷ []

abbrev pub wrong_input_text : List (List ℕ)
wrong_input_text = bytes_of "  잘못된 입력입니다." ∷ []

abbrev pub wrong_number_text : List (List ℕ)
wrong_number_text = bytes_of "  1~9 시작, 10 중지를 입력하세요." ∷ []

-- The lines of a print, each with its newline left off.
unfoldable pub screen : Print → List (List ℕ)
screen main_menu = show_main_menu
screen led_menu = led_menu_text
screen brightness_menu = brightness_menu_text
screen buzzer_menu = buzzer_menu_text
screen segment_menu = segment_menu_text
screen status_menu = status_menu_text
screen help = print_help
screen wrong_input = wrong_input_text
screen wrong_number = wrong_number_text

-- The first number of a line, or the first two if they stand as in "1~9", as a range.
abbrev range_from : ℕ → List ℕ → ℕ × ℕ
range_from low [] = (low, low)
range_from low (b ∷ bs) =
    let rest = range_from (low * 10 + (b - b'0')) bs in
    if is_digit b then rest else if b == b'~' then (low, digits_value 0 bs) else (low, low)

abbrev range_of : List ℕ → Option (ℕ × ℕ)
range_of [] = none
range_of (b ∷ bs) =
    let rest = range_of bs in if is_digit b then some (range_from (b - b'0') bs) else rest

abbrev within : Option (ℕ × ℕ) → ℕ → Bool
within none n = false
within (some (low, high)) n = leb low n && leb n high

-- Whether the lines offer a number to choose.
unfoldable pub offers : List (List ℕ) → ℕ → Bool
unfolding digits_value
offers [] n = false
offers (l ∷ ls) n = within (range_of l) n || offers ls n
