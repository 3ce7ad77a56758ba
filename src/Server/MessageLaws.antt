-- ===== src/Server/MessageLaws.antt =====
-- That the responses of server/handler.c are bytes.
use linux_veda_4sensor_tcp_c.Prelude.{ℤ, pos, negsuc, arith}
use linux_veda_4sensor_tcp_c.Protocol.{Message, IsMessage}
use linux_veda_4sensor_tcp_c.Devices.Sensor.{sensor_read}
use linux_veda_4sensor_tcp_c.Server.State.{World, Env}
use linux_veda_4sensor_tcp_c.Server.Melody.{start_melody_thread}
use linux_veda_4sensor_tcp_c.Server.Countdown.{start_segment_thread}
use linux_veda_4sensor_tcp_c.Server.Commands.{
  handle_led_command, handle_buzzer_command, handle_segment_command, handle_system_command,
  handle_command, lux_response, handle_query, respond,
}

lux_response-IsMessage : (lux : ℤ) → IsMessage (lux_response lux)
unfolding lux_response
lux_response-IsMessage (negsuc n) = ground arith
lux_response-IsMessage (pos n) = ground arith

module _ (env : Env) (r : Message) (w : World) (bytes : IsMessage r) where
  led_command-IsMessage : IsMessage (handle_led_command r w).0
  unfolding handle_led_command
  led_command-IsMessage = ground arith

  buzzer_command-IsMessage : IsMessage (handle_buzzer_command env r w).0
  unfolding handle_buzzer_command start_melody_thread
  buzzer_command-IsMessage = ground arith

  segment_command-IsMessage : IsMessage (handle_segment_command env r w).0
  unfolding handle_segment_command start_segment_thread
  segment_command-IsMessage = ground arith

  system_command-IsMessage : IsMessage (handle_system_command env r w).0
  unfolding handle_system_command
  system_command-IsMessage = ground arith

  command-IsMessage : IsMessage (handle_command env r w).0
  unfolding handle_command
  command-IsMessage = ground (
    arith, led_command-IsMessage, buzzer_command-IsMessage, segment_command-IsMessage,
    system_command-IsMessage,
  )

  query-IsMessage : IsMessage (handle_query env r w).0
  unfolding handle_query
  query-IsMessage =
      let lux = lux_response-IsMessage (sensor_read env.transfers w.board).0 in ground (arith, lux)

  -- A request of four bytes gets a response of four bytes.
  pub respond-IsMessage : IsMessage (respond env r w).0
  unfolding respond
  respond-IsMessage = ground (arith, command-IsMessage, query-IsMessage)
