-- ===== src/Client/Console.antt =====
-- read_choice and send_msg of client/main.c, with `fgets` and `atoi` of the C library. A number that
-- does not fit an `int`, for which `atoi` is undefined, is kept as it is.
use linux_veda_4sensor_tcp_c.Prelude.{
  ℕ, zero, suc, ◌+◌, ◌*◌, ◌-◌, ℤ, pos, negsuc, ◌==◌, leb, if◌then◌else◌, Bool, ◌&&◌, ◌||◌, List, [],
  ◌∷◌,
}
use linux_veda_4sensor_tcp_c.Protocol.{Message}

-- What the client prints of its own: the menus' texts for a wrong input, and the menus.
pub data Print : Type 0 where
  main_menu led_menu brightness_menu buzzer_menu segment_menu status_menu help : Print
  wrong_input wrong_number : Print

pub record Session : Type 0 where
  pub input : List ℕ
  pub sent : List Message  -- newest first
  pub printed : List Print  -- newest first

abbrev pub print : Print → Session → Session
print p s = record s { printed = p ∷ s.printed }

abbrev pub send_msg : Message → Session → Session
send_msg m s = record s { sent = m ∷ s.sent }

-- `fgets` takes at most `k` bytes, up to and with a newline.
unfoldable pub take_line : ℕ → List ℕ → List ℕ × List ℕ
take_line zero bs = ([], bs)
take_line (suc k) [] = ([], [])
take_line (suc k) (b ∷ bs) =
    let (line, rest) = take_line k bs in if b == b'\n' then (b ∷ [], bs) else (b ∷ line, rest)

abbrev is_space : ℕ → Bool
is_space b = b == b' ' || (leb 9 b && leb b 13)

abbrev pub is_digit : ℕ → Bool
is_digit b = leb b'0' b && leb b b'9'

unfoldable pub digits_value : ℕ → List ℕ → ℕ
digits_value acc [] = acc
digits_value acc (b ∷ bs) =
    let more = digits_value (acc * 10 + (b - b'0')) bs in if is_digit b then more else acc

abbrev negate : ℕ → ℤ
negate zero = pos 0
negate (suc n) = negsuc n

unfoldable pub signed_value : List ℕ → ℤ
unfolding digits_value
signed_value [] = pos 0
signed_value (b ∷ bs) =
    if b == b'-'
    then negate (digits_value 0 bs)
    else if b == b'+'
    then pos (digits_value 0 bs)
    else pos (digits_value 0 (b ∷ bs))

unfoldable pub atoi : List ℕ → ℤ
unfolding signed_value
atoi [] = pos 0
atoi (b ∷ bs) = let rest = atoi bs in if is_space b then rest else signed_value (b ∷ bs)

-- With `char buf[16]`; -1 at the end of the input.
unfoldable pub read_choice_from : List ℕ → ℤ × List ℕ
unfolding take_line atoi
read_choice_from [] = (negsuc 0, [])
read_choice_from (b ∷ bs) = let (line, rest) = take_line 15 (b ∷ bs) in (atoi line, rest)

unfoldable pub read_choice : Session → ℤ × Session
unfolding read_choice_from
read_choice s = let (c, rest) = read_choice_from s.input in (c, record s { input = rest })
