-- ===== src/Gateway/Bridge.antt =====
-- web/server.js: the connection to the alarm server, and the browsers.
use linux_veda_4sensor_tcp_c.Prelude.{
  ℕ, suc, ◌==◌, if◌then◌else◌, Bool, true, false, Option, none, some, List, [], ◌∷◌, ◌++◌,
}
use linux_veda_4sensor_tcp_c.Protocol.{
  Message, msg_event, msg_resp, evt_intrusion, evt_alarm_on, evt_alarm_triggered, evt_countdown,
}
use linux_veda_4sensor_tcp_c.Gateway.Frames.{
  Value, Encoded, buffer, type_error, range_error, decode_frames, encode_message, fixed_command,
  command_message,
}

-- The texts of an event.
pub data Label : Type 0 where
  intrusion alarm_on alarm_triggered : Label
  countdown : (value : ℕ) → Label
  unknown : (action : ℕ) → Label

-- What is sent to browsers, as JSON.
pub data Notice : Type 0 where
  event : (action device value : ℕ) → Label → Notice
  resp : (device action value : ℕ) → Notice
  status : (connected : Bool) → Notice
  not_connected : Notice  -- an error, the first of `ws.on('message')`
  refused : Encoded → Notice  -- an error that `commandMessage` throws
  not_understood : Notice  -- an error of `JSON.parse`, or of a payload that is no object

-- A browser's notice and a broadcast.
pub data Output : Type 0 where
  broadcast : Notice → Output
  answer : (browser : ℕ) → Notice → Output
  written : (socket : ℕ) → List ℕ → Output  -- `tcp.write`

-- The variables: the number of the socket that `tcp` is and whether it is open, that is, not
-- destroyed and with the `readyState` 'open', `tcpBuffer`, and
-- whether there is a timer; `sockets` numbers the sockets that have been made. Outputs come oldest
-- first.
pub record Gateway : Type 0 where
  pub tcp : Option ℕ
  pub is_open : Bool
  pub tcp_buffer : List ℕ
  pub timer : Bool
  pub sockets : ℕ
  pub browsers : List ℕ
  pub outputs : List Output

abbrev pub emit : Output → Gateway → Gateway
emit o g = record g { outputs = g.outputs ++ (o ∷ []) }

abbrev pub label_of : ℕ → ℕ → Label
label_of action value =
    if action == evt_intrusion
    then intrusion
    else if action == evt_alarm_on
    then alarm_on
    else if action == evt_alarm_triggered
    then alarm_triggered
    else if action == evt_countdown
    then countdown value
    else unknown action

-- `handleTcpMessage`: a message that is no event and no response has no notice.
unfoldable pub notice_of : Message → Option Notice
notice_of m =
    if m.type == msg_event
    then some (event m.action m.device m.value (label_of m.action m.value))
    else if m.type == msg_resp
    then some (resp m.device m.action m.value)
    else none

abbrev pub emit_notice : Option Notice → Gateway → Gateway
emit_notice none g = g
emit_notice (some n) g = emit (broadcast n) g

unfoldable pub handle_tcp_message : Message → Gateway → Gateway
unfolding notice_of
handle_tcp_message m g = emit_notice (notice_of m) g

unfoldable pub handle_each : List Message → Gateway → Gateway
unfolding handle_tcp_message
handle_each [] g = g
handle_each (m ∷ ms) g = handle_each ms (handle_tcp_message m g)

unfoldable pub connect_pi : Gateway → Gateway
connect_pi g = record g {
  tcp = some g.sockets;
  is_open = false;
  tcp_buffer = [];
  sockets = suc g.sockets;
}

-- The test `tcp !== socket`.
abbrev pub is_current : ℕ → Option ℕ → Bool
is_current s none = false
is_current s (some t) = t == s

abbrev pub schedule_reconnect : Gateway → Gateway
schedule_reconnect g = if g.timer then g else record g { timer = true }

abbrev pub take_frames : List Message × List ℕ → Gateway → Gateway
take_frames (messages, remaining) g = handle_each messages (record g { tcp_buffer = remaining })

unfoldable pub on_data : ℕ → List ℕ → Gateway → Gateway
unfolding decode_frames handle_each
on_data s bytes g =
    if is_current s g.tcp then take_frames (decode_frames (g.tcp_buffer ++ bytes)) g else g

unfoldable pub on_close : ℕ → Gateway → Gateway
on_close s g =
    if is_current s g.tcp
    then schedule_reconnect (
        emit (broadcast (status false)) (record g { tcp = none; is_open = false; tcp_buffer = [] }))
    else g

-- The callback of `connect`.
unfoldable pub on_connect : ℕ → Gateway → Gateway
on_connect s g =
    let g₁ = if is_current s g.tcp then record g { is_open = true } else g in
    emit (broadcast (status true)) g₁

-- The callback of the timer.
unfoldable pub on_timer : Gateway → Gateway
unfolding connect_pi
on_timer g = if g.timer then connect_pi (record g { timer = false }) else g

-- `isTcpConnected`.
unfoldable pub is_tcp_connected : Gateway → Bool
is_tcp_connected g = elim (g.tcp) [ none ↦ false | some s ↦ g.is_open ]

-- `sendPI`, with the test `isTcpConnected` on the socket at hand: `flushed` is what `tcp.write` gives, which is false if the bytes wait in a queue.
unfoldable pub send_pi : (flushed : Bool) → List ℕ → Gateway → Bool × Gateway
send_pi flushed bytes g = elim (g.tcp) [
  | none ↦ (false, g)
  | some s ↦ if g.is_open then (flushed, emit (written s bytes) g) else (false, g)
]

-- A socket that breaks, or that its peer ends, is destroyed or no longer open some time before its
-- `close` is heard.
unfoldable pub on_broken : ℕ → Gateway → Gateway
on_broken s g = if is_current s g.tcp then record g { is_open = false } else g

-- `ws.on('message')`, of a payload with these fields.
abbrev pub answer_of : (flushed : Bool) → ℕ → Encoded → Gateway → Gateway
answer_of flushed b (buffer bytes) g =
    let (sent, g₁) = send_pi flushed bytes g in
    if sent then g₁ else emit (answer b not_connected) g₁
answer_of flushed b type_error g = emit (answer b (refused type_error)) g
answer_of flushed b range_error g = emit (answer b (refused range_error)) g

-- A browser's message: nothing that `payload.cmd` can be read from, a command that is no text, with
-- the text that it has as a key, or one that is, with `payload.value`.
pub data Payload : Type 0 where
  malformed : Payload
  no_text : (key : List ℕ) → Payload
  command : (cmd : List ℕ) → Value → Payload

unfoldable pub on_message : (flushed : Bool) → ℕ → Payload → Gateway → Gateway
unfolding command_message encode_message send_pi
on_message flushed b malformed g = emit (answer b not_understood) g
on_message flushed b (no_text key) g = answer_of flushed b (fixed_command key) g
on_message flushed b (command cmd value) g = answer_of flushed b (command_message cmd value) g

unfoldable pub on_browser : ℕ → Gateway → Gateway
unfolding is_tcp_connected
on_browser b g =
    emit (answer b (status (is_tcp_connected g))) (record g { browsers = b ∷ g.browsers })

abbrev pub remove_browser : ℕ → List ℕ → List ℕ
remove_browser b [] = []
remove_browser b (c ∷ cs) = let rest = remove_browser b cs in if c == b then rest else c ∷ rest

-- What happens next.
pub data Happening : Type 0 where
  connected broken closed : (socket : ℕ) → Happening
  came : (socket : ℕ) → List ℕ → Happening
  timer_fires : Happening
  browser_comes browser_goes : (browser : ℕ) → Happening
  asked : (flushed : Bool) (browser : ℕ) → Payload → Happening

unfoldable pub step : Happening → Gateway → Gateway
unfolding on_data on_close on_broken on_connect on_timer on_message on_browser
step (connected s) g = on_connect s g
step (broken s) g = on_broken s g
step (closed s) g = on_close s g
step (came s bytes) g = on_data s bytes g
step timer_fires g = on_timer g
step (browser_comes b) g = on_browser b g
step (browser_goes b) g = record g { browsers = remove_browser b g.browsers }
step (asked flushed b payload) g = on_message flushed b payload g

unfoldable pub run : List Happening → Gateway → Gateway
unfolding step
run [] g = g
run (h ∷ hs) g = run hs (step h g)

-- Behind the first `connectPI`.
unfoldable pub started : Gateway
unfolding connect_pi
started = connect_pi (record {
  tcp = none;
  is_open = false;
  tcp_buffer = [];
  timer = false;
  sockets = 0;
  browsers = [];
  outputs = [];
})
