-- ===== src/Server/Tests/Failures.antt =====
-- Runs of server/ in which something fails or crosses, and the texts of server/main.c.
use linux_veda_4sensor_tcp_c.Prelude.{
  ◌≡◌, ◌⊎◌, inl, inr, refl, leb, if◌then◌else◌, some, none, [], ◌∷◌, ◌++◌, length, arith,
}
use linux_veda_4sensor_tcp_c.Protocol.{Message, message, msg_cmd, dev_led, act_on, act_off}
use linux_veda_4sensor_tcp_c.Server.State.{World, Env}
use linux_veda_4sensor_tcp_c.Server.Accept.{initial_world}
use linux_veda_4sensor_tcp_c.Server.System.{run}
use linux_veda_4sensor_tcp_c.Server.LedLaws.{LedAgrees}
use linux_veda_4sensor_tcp_c.Server.LedOrders.{
  left, right, done, sections, perform, crossed, two_commands,
}
use linux_veda_4sensor_tcp_c.Server.Text.{base_dir, library_text, library_path}
use linux_veda_4sensor_tcp_c.Server.TextLaws.{library_path-base_dir}
use linux_veda_4sensor_tcp_c.Protocol.{dev_led, act_on}
use linux_veda_4sensor_tcp_c.Server.Tests.Scenes.{dark, day}

-- No thread can be had.
abbrev exhausted : Env
exhausted = record dark { create_melody = 11; create_segment = 11 }

abbrev evening : World
evening = run day initial_world

abbrev on_request : Message
on_request = message msg_cmd dev_led act_on 0

abbrev off_request : Message
off_request = message msg_cmd dev_led act_off 0

two_commands_example :
    LedAgrees (perform (sections on_request ++ sections off_request) evening)
    ⊎ ((sections on_request ++ sections off_request ≡ crossed on_request off_request)
        ⊎ (sections on_request ++ sections off_request ≡ crossed off_request on_request))
two_commands_example =
    two_commands on_request off_request (sections on_request ++ sections off_request) evening
      (inl refl) (inr (inl refl)) (left (left (right (right done))))

-- The program "/v/s" and the library "led".
library_path-base_dir_example :
    library_path (base_dir ((b'/' ∷ b'v' ∷ []) ++ b'/' ∷ b's' ∷ [])) (b'l' ∷ b'e' ∷ b'd' ∷ []) ≡ (
      if leb (length (library_text (b'/' ∷ b'v' ∷ []) (b'l' ∷ b'e' ∷ b'd' ∷ []))) 511
      then some (library_text (b'/' ∷ b'v' ∷ []) (b'l' ∷ b'e' ∷ b'd' ∷ []))
      else none)
library_path-base_dir_example =
    library_path-base_dir (b'/' ∷ b'v' ∷ []) (b's' ∷ []) (b'l' ∷ b'e' ∷ b'd' ∷ []) (refl, tt)
      (omega arith)
