-- ===== src/Gateway/BridgeLaws.antt =====
-- What web/server.js tells the browsers, and how it keeps its connection.
use linux_veda_4sensor_tcp_c.Prelude.{
  ℕ, ◌≡◌, refl, sym, ap, ◌∙◌, true, false, Option, none, some, List, [], ◌∷◌, ◌++◌, map,
  append_assoc, append-nil, arith,
}
use linux_veda_4sensor_tcp_c.Protocol.{Message}
use linux_veda_4sensor_tcp_c.Protocol.Codec.{encode}
use linux_veda_4sensor_tcp_c.Server.SessionLaws.{stream}
use linux_veda_4sensor_tcp_c.ProtocolIo.Contract.{Whole}
use linux_veda_4sensor_tcp_c.Server.Traffic.{Talk, senders, Merged}
use linux_veda_4sensor_tcp_c.Server.TrafficLaws.{Talk-Merged}
use linux_veda_4sensor_tcp_c.Gateway.Frames.{Value, buffer, decode_frames, command_message}
use linux_veda_4sensor_tcp_c.Gateway.FrameLaws.{decode_frames-stream}
use linux_veda_4sensor_tcp_c.Gateway.Bridge.{
  command, Notice, not_connected, Output, broadcast, answer, written, Gateway, notice_of,
  emit_notice, handle_tcp_message, handle_each, is_current, on_data, on_message, send_pi, came,
  step, run,
}

abbrev noticed : Option Notice → List Output
noticed none = []
noticed (some n) = broadcast n ∷ []

-- What is broadcast for messages, in order.
abbrev pub notices : List Message → List Output
notices [] = []
notices (m ∷ ms) = noticed (notice_of m) ++ notices ms

abbrev tell : List Output → Gateway → Gateway
tell os g = record g { outputs = g.outputs ++ os }

emit_notice_lem : (o : Option Notice) (g : Gateway) → emit_notice o g ≡ tell (noticed o) g
emit_notice_lem none g = ap (λ os. record g { outputs = os }) (sym (append-nil g.outputs))
emit_notice_lem (some n) g = refl

handle_each_lem : (ms : List Message) (g : Gateway) → handle_each ms g ≡ tell (notices ms) g
unfolding handle_each handle_tcp_message
handle_each_lem [] g = ap (λ os. record g { outputs = os }) (sym (append-nil g.outputs))
handle_each_lem (m ∷ ms) g =
    ap (handle_each ms) (emit_notice_lem (notice_of m) g)
    ∙ handle_each_lem ms (tell (noticed (notice_of m)) g)
    ∙ ap (λ os. record g { outputs = os })
        (append_assoc g.outputs (noticed (notice_of m)) (notices ms))

unfoldable pub concat : List (List ℕ) → List ℕ
concat [] = []
concat (c ∷ cs) = c ++ concat cs

-- The messages of a buffer stand in front of what remains.
decode_frames_lem : (bs : List ℕ) → bs ≡ stream (decode_frames bs).0 ++ (decode_frames bs).1
unfolding decode_frames encode
decode_frames_lem [] = refl
decode_frames_lem (t ∷ []) = refl
decode_frames_lem (t ∷ d ∷ []) = refl
decode_frames_lem (t ∷ d ∷ a ∷ []) = refl
decode_frames_lem (t ∷ d ∷ a ∷ v ∷ bs) = ap (λ l. t ∷ d ∷ a ∷ v ∷ l) (decode_frames_lem bs)

decode_frames-append :
    (bs cs : List ℕ)
    → let (ms, rest) = decode_frames bs in
      decode_frames (bs ++ cs)
      ≡ (ms ++ (decode_frames (rest ++ cs)).0, (decode_frames (rest ++ cs)).1)
decode_frames-append bs cs =
    let (ms, rest) = decode_frames bs in
    ap (λ l. decode_frames (l ++ cs)) (decode_frames_lem bs)
    ∙ ap decode_frames (append_assoc (stream ms) rest cs)
    ∙ decode_frames-stream ms (rest ++ cs)

notices-append : (ms ns : List Message) → notices (ms ++ ns) ≡ notices ms ++ notices ns
notices-append [] ns = refl
notices-append (m ∷ ms) ns =
    ap (λ os. noticed (notice_of m) ++ os) (notices-append ms ns)
    ∙ sym (append_assoc (noticed (notice_of m)) (notices ms) (notices ns))

pub remaining_short :
    (bs : List ℕ) → decode_frames (decode_frames bs).1 ≡ ([], (decode_frames bs).1)
unfolding decode_frames
remaining_short [] = refl
remaining_short (t ∷ []) = refl
remaining_short (t ∷ d ∷ []) = refl
remaining_short (t ∷ d ∷ a ∷ []) = refl
remaining_short (t ∷ d ∷ a ∷ v ∷ bs) = remaining_short bs

-- What bytes do, with those that are already in the buffer.
abbrev pub told : List ℕ → Gateway → Gateway
told bs g = record g {
  tcp_buffer = (decode_frames bs).1;
  outputs = g.outputs ++ notices (decode_frames bs).0;
}

told_twice :
    (bs cs : List ℕ) (g : Gateway)
    → told ((decode_frames bs).1 ++ cs) (told bs g) ≡ told (bs ++ cs) g
told_twice bs cs g =
    let (ms, rest) = decode_frames bs in
    let (ns, left) = decode_frames (rest ++ cs) in
    ap (λ os. record g { tcp_buffer = left; outputs = os })
      (append_assoc g.outputs (notices ms) (notices ns)
        ∙ ap (λ os. g.outputs ++ os) (sym (notices-append ms ns)))
    ∙ ap
        (λ (d : List Message × List ℕ). record g {
          tcp_buffer = d.1;
          outputs = g.outputs ++ notices d.0;
        })
        (sym (decode_frames-append bs cs))

is_current_refl : (s : ℕ) (t : Option ℕ) → t ≡ some s → is_current s t ≡ true
is_current_refl s none e = cc
is_current_refl s (some t) e = let same : t ≡ s = cc in ground arith

pub on_data_current :
    (s : ℕ) (c : List ℕ) (g : Gateway)
    → is_current s g.tcp ≡ true
    → on_data s c g ≡ told (g.tcp_buffer ++ c) g
unfolding on_data
on_data_current s c g here = rw here (
    handle_each_lem (decode_frames (g.tcp_buffer ++ c)).0
      (record g { tcp_buffer = (decode_frames (g.tcp_buffer ++ c)).1 }))

pub on_data_other :
    (s : ℕ) (c : List ℕ) (g : Gateway) → is_current s g.tcp ≡ false → on_data s c g ≡ g
unfolding on_data
on_data_other s c g other = rw other refl

-- Where the buffer holds no whole message, pieces that come in leave what they would leave together.
came_lem :
    (s : ℕ) (chunks : List (List ℕ)) (g : Gateway)
    → g.tcp ≡ some s
    → decode_frames g.tcp_buffer ≡ ([], g.tcp_buffer)
    → run (map (came s) chunks) g ≡ told (g.tcp_buffer ++ concat chunks) g
unfolding run concat step
came_lem s [] g here short =
    ap (λ os. record g { outputs = os }) (sym (append-nil g.outputs))
    ∙ ap
        (λ (d : List Message × List ℕ). record g {
          tcp_buffer = d.1;
          outputs = g.outputs ++ notices d.0;
        })
        (sym short ∙ ap decode_frames (sym (append-nil g.tcp_buffer)))
came_lem s (c ∷ cs) g here short =
    let bs = g.tcp_buffer ++ c in
    ap (run (map (came s) cs)) (on_data_current s c g (is_current_refl s g.tcp here))
    ∙ came_lem s cs (told bs g) here (remaining_short bs)
    ∙ told_twice bs (concat cs) g
    ∙ ap (λ l. told l g) (append_assoc g.tcp_buffer c (concat cs))

pub nothing_in : decode_frames [] ≡ ([], [])
unfolding decode_frames
nothing_in = refl

decode_frames-whole : (ms : List Message) → decode_frames (stream ms) ≡ (ms, [])
unfolding decode_frames
decode_frames-whole ms =
    ap decode_frames (sym (append-nil (stream ms)))
    ∙ decode_frames-stream ms []
    ∙ ap (λ (l : List Message). (l, [])) (append-nil ms)

-- Several threads of the server send on the gateway's connection at the same time, each its messages
-- one after the other, and each call of `send` takes what it is given. However the bytes come in, on
-- a connection that has just been made, the gateway broadcasts to the browsers the notices of all
-- these messages, those of each thread in its order, and its buffer is empty again.
pub gateway_tells :
    (mss : List (List Message)) (final : List ℕ) (s : ℕ) (chunks : List (List ℕ)) (g : Gateway)
    → Talk Whole (senders mss) [] final
    → concat chunks ≡ final
    → g.tcp ≡ some s
    → g.tcp_buffer ≡ []
    → (ms : List Message) × Merged mss ms
      × ((run (map (came s) chunks) g).outputs ≡ g.outputs ++ notices ms)
      × ((run (map (came s) chunks) g).tcp_buffer ≡ [])
gateway_tells mss final s chunks g talk whole here empty =
    let (ms, merged, sent) = Talk-Merged mss final talk in
    let short : decode_frames g.tcp_buffer ≡ ([], g.tcp_buffer) = rw empty nothing_in in
    let came_in = came_lem s chunks g here short in
    let decoded : decode_frames (g.tcp_buffer ++ concat chunks) ≡ (ms, []) =
      ap (λ l. decode_frames (l ++ concat chunks)) empty
      ∙ ap decode_frames (whole ∙ sent)
      ∙ decode_frames-whole ms in
    (
      ms,
      merged,
      ap (λ (v : Gateway). v.outputs) came_in
          ∙ ap (λ (d : List Message × List ℕ). g.outputs ++ notices d.0) decoded,
      ap (λ (v : Gateway). v.tcp_buffer) came_in ∙ ap (λ (d : List Message × List ℕ). d.1) decoded,
    )

-- If the connection is open and `tcp.write` lets the bytes of a command wait in its queue, then the
-- command is written, and the browser that has sent it is told that the server is not connected.
pub queued_command :
    (b s : ℕ) (cmd bytes : List ℕ) (value : Value) (g : Gateway)
    → g.tcp ≡ some s
    → g.is_open ≡ true
    → command_message cmd value ≡ buffer bytes
    → on_message false b (command cmd value) g ≡ record g {
      outputs = (g.outputs ++ (written s bytes ∷ [])) ++ (answer b not_connected ∷ []);
    }
unfolding on_message send_pi
queued_command b s cmd bytes value g here ready sends = rw sends (rw (here, ready) refl)
