-- ===== src/Process.antt =====
-- The system calls of server/main.c, server/daemon.c and client/main.c that start a process, and what
-- a function that makes them does: it returns a value, or ends the process with `exit`.
pub mod Text
pub mod Files
pub mod Ends
pub mod Simulated
use linux_veda_4sensor_tcp_c.Prelude.{ℕ, ℤ, List, [], ◌∷◌}

-- What `signal` is called for.
pub data Signal : Type 0 where
  sighup sigpipe sigint sigterm sigtstp sigquit : Signal

-- What a signal does behind the call.
pub data Handler : Type 0 where
  ignored terminates : Handler

-- The threads that the processes start.
pub data Worker : Type 0 where
  led buzzer sensor receiver : Worker

pub data Call : Type 0 where
  socket readlink ttyname : Call
  inet_pton : (text : List ℕ) → Call
  set_reuse_address connect : (fd : ℤ) → Call
  bind : (fd : ℤ) (port : ℕ) → Call
  listen : (fd : ℤ) (backlog : ℕ) → Call
  open_file : (path : List ℕ) → Call
  write : (fd : ℤ) (text : List ℕ) → Call
  close : (fd : ℤ) → Call
  dup2 : (fd target : ℤ) → Call
  fork setsid : Call
  signal : Signal → Handler → Call
  chdir : (path : List ℕ) → Call
  umask : (mask : ℕ) → Call
  dlopen : (path : List ℕ) → Call
  dlsym : (handle : ℤ) (name : List ℕ) → Call
  dlerror : Call
  pthread_create pthread_detach : Worker → Call
  report : (text : List ℕ) → Call  -- perror, printf and fprintf, without the words of errno and dlerror

-- The calls made so far with their answers, newest first. An answer is the result of the call; of a
-- pointer only whether it is null counts, and null is 0.
abbrev pub History : Type 0
History = List (Call × ℤ)

-- The kernel and the dynamic linker: what they answer after what came before.
abbrev pub Kernel : Type 0
Kernel = History → Call → ℤ

-- The history behind one more call.
abbrev pub after : Kernel → Call → History → History
after kernel c h = (c, kernel h c) ∷ h

pub data Outcome (A : Type 0) : Type 0 where
  value : A → Outcome A
  exited : (status : ℕ) → Outcome A

abbrev pub Action : Type 0 → Type 0
Action A = History → Outcome A × History

module _ {A : Type 0} where
  abbrev pub pure : A → Action A
  pure a h = (value a, h)

  abbrev pub exit : ℕ → Action A
  exit status h = (exited status, h)

infixl 5 ◌>>=◌ ◌>>◌
abbrev pub ◌>>=◌ : {A B : Type 0} → Action A → (A → Action B) → Action B
◌>>=◌ m f h = let (o, h') = m h in elim o [ value a ↦ f a h' | exited status ↦ exit status h' ]

abbrev pub ◌>>◌ : {A B : Type 0} → Action A → Action B → Action B
m >> k = m >>= λ _. k

abbrev pub call : Kernel → Call → Action ℤ
call kernel c h = let r = kernel h c in (value r, (c, r) ∷ h)

abbrev pub exit_success : ℕ
exit_success = 0

abbrev pub exit_failure : ℕ
exit_failure = 1

-- The exit behind a message.
abbrev pub fail : {A : Type 0} → Kernel → List ℕ → Action A
fail kernel text = do call kernel (report text); exit exit_failure
