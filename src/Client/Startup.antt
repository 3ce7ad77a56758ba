-- ===== src/Client/Startup.antt =====
-- termination_handler of client/main.c, and what `main` does around its loop.
use linux_veda_4sensor_tcp_c.Prelude.{
  ℕ, ◌+◌, ℤ, pos, ◌==ℤ◌, is_neg, if◌then◌else◌, ◌||◌, Option, none, some, List, [], ◌∷◌, ◌++◌,
}
use linux_veda_4sensor_tcp_c.Process.{
  socket, inet_pton, connect, write, close, report, pthread_create, pthread_detach, Signal, sighup,
  sigpipe, sigint, sigterm, sigtstp, sigquit, signal, ignored, terminates, receiver, Kernel, Action,
  call, pure, exit, fail, ◌>>=◌, ◌>>◌,
}
use linux_veda_4sensor_tcp_c.Process.Text.{bytes_of}
use linux_veda_4sensor_tcp_c.Client.Console.{Session}
use linux_veda_4sensor_tcp_c.Client.Menus.{main_loop}

abbrev pub signal_number : Signal → ℕ
signal_number sighup = 1
signal_number sigint = 2
signal_number sigquit = 3
signal_number sigpipe = 13
signal_number sigterm = 15
signal_number sigtstp = 20

-- "\n[...]\n" in UTF-8.
abbrev pub goodbye : List ℕ
goodbye =
    10 ∷ 91 ∷ 237 ∷ 129 ∷ 180 ∷ 235 ∷ 157 ∷ 188 ∷ 236 ∷ 157 ∷ 180 ∷ 236 ∷ 150 ∷ 184 ∷ 237 ∷ 138
    ∷ 184 ∷ 32 ∷ 236 ∷ 162 ∷ 133 ∷ 235 ∷ 163 ∷ 140 ∷ 93 ∷ 10 ∷ []

-- `g_sock` is the second argument; STDOUT_FILENO is 1.
abbrev pub hang_up : Kernel → ℤ → Action ℤ
hang_up kernel sock = if is_neg sock then pure (pos 0) else call kernel (close sock)

unfoldable pub termination_handler : Kernel → ℤ → Signal → Action Unit
termination_handler kernel sock sig = do
  hang_up kernel sock
  call kernel (write (pos 1) goodbye)
  exit (128 + signal_number sig)

abbrev pub default_ip : List ℕ
default_ip = bytes_of "127.0.0.1"

-- `argv[1]`, if there is one.
abbrev pub server_ip : Option (List ℕ) → List ℕ
server_ip (some arg) = arg
server_ip none = default_ip

-- The six lines before the socket.
abbrev pub set_signals : Kernel → Action Unit
set_signals kernel = do
  call kernel (signal sigint terminates)
  call kernel (signal sigterm terminates)
  call kernel (signal sighup ignored)
  call kernel (signal sigpipe ignored)
  call kernel (signal sigtstp ignored)
  call kernel (signal sigquit ignored)
  pure tt

-- "... %s\n" in UTF-8.
abbrev wrong_address : List ℕ → List ℕ
wrong_address ip =
    (236 ∷ 158 ∷ 152 ∷ 235 ∷ 170 ∷ 187 ∷ 235 ∷ 144 ∷ 156 ∷ 32 ∷ 73 ∷ 80 ∷ 32 ∷ 236 ∷ 163 ∷ 188 ∷ 236
      ∷ 134 ∷ 140 ∷ 58 ∷ 32 ∷ [])
    ++ ip
    ++ 10 ∷ []

-- "... %s:%d ...\n" in UTF-8.
abbrev pub connected_to : List ℕ → List ℕ
connected_to ip =
    (236 ∷ 132 ∷ 156 ∷ 235 ∷ 178 ∷ 132 ∷ 32 ∷ [])
    ++ ip
    ++ bytes_of ":8080"
    ++ (32 ∷ 236 ∷ 151 ∷ 144 ∷ 32 ∷ 236 ∷ 151 ∷ 176 ∷ 234 ∷ 178 ∷ 176 ∷ 235 ∷ 144 ∷ 168 ∷ 10 ∷ [])

-- Behind `connect`; the results of the two calls are not looked at.
abbrev pub start_receiver : Kernel → List ℕ → ℤ → Action ℤ
start_receiver kernel ip sock = do
  call kernel (report (connected_to ip))
  call kernel (pthread_create receiver)
  call kernel (pthread_detach receiver)
  pure sock

-- Behind `socket`.
abbrev pub reach : Kernel → List ℕ → ℤ → Action ℤ
reach kernel ip sock = do
  parsed ← call kernel (inet_pton ip)
  if is_neg parsed || parsed ==ℤ pos 0 then fail kernel (wrong_address ip) else do
    connected ← call kernel (connect sock)
    if is_neg connected then fail kernel (bytes_of "connect") else start_receiver kernel ip sock

-- `main` up to its loop.
unfoldable pub connect_server : Kernel → Option (List ℕ) → Action ℤ
connect_server kernel arg = do
  set_signals kernel
  sock ← call kernel socket
  if is_neg sock then fail kernel (bytes_of "socket") else reach kernel (server_ip arg) sock

-- Behind the loop, whose fuel may have run out.
abbrev pub hang_up_after : Kernel → ℤ → Option Session → Action (Option Session)
hang_up_after kernel sock none = pure none
hang_up_after kernel sock (some s) = do
  call kernel (close sock)
  call kernel (report (91 ∷ 236 ∷ 162 ∷ 133 ∷ 235 ∷ 163 ∷ 140 ∷ 93 ∷ 10 ∷ []))
  pure (some s)

-- The loop's own effects are in the session.
unfoldable pub main : Kernel → Option (List ℕ) → ℕ → Session → Action (Option Session)
main kernel arg fuel s = do
  sock ← connect_server kernel arg
  hang_up_after kernel sock (main_loop fuel s)
