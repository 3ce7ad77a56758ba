-- ===== src/Server/Boot/Returns.antt =====
-- That the start of the server comes to its end: `main` of server/main.c up to its loop.
use linux_veda_4sensor_tcp_c.Prelude.{
  ℕ, ◌+◌, ◌<◌, ◌≡◌, refl, leb→le, ◌∙◌, ap, arith, length, length-append, leb, ℤ, pos, ◌==ℤ◌, is_neg,
  Bool-cases, inl, inr, false, some, List, [], ◌∷◌, ◌++◌, sym, subst,
}
use linux_veda_4sensor_tcp_c.Process.{
  socket, set_reuse_address, bind, listen, readlink, fork, chdir, dlopen, dlerror, pthread_create,
  open_file, led, buzzer, sensor, Worker, Outcome, value, exited, History, Kernel, after, Action,
  pure, call, signal, sigpipe, ignored, ◌>>=◌, ◌>>◌,
}
use linux_veda_4sensor_tcp_c.Process.Text.{bytes_of}
use linux_veda_4sensor_tcp_c.Process.Ends.{Ends, bind-Ends}
use linux_veda_4sensor_tcp_c.Server.State
use linux_veda_4sensor_tcp_c.Server.State.{World, server_started}
use linux_veda_4sensor_tcp_c.Server.Text.{log_line, snprintf, library_text, library_path, base_dir}
use linux_veda_4sensor_tcp_c.Server.Accept.{initialize_hardware, initial_world}
use linux_veda_4sensor_tcp_c.Server.Boot.{Host}
use linux_veda_4sensor_tcp_c.Server.Boot.Log.{append, append_to_tty, log_path, log_event}
use linux_veda_4sensor_tcp_c.Server.Boot.Daemon.{redirect, daemonize}
use linux_veda_4sensor_tcp_c.Server.Boot.Listener.{setup_server, port_number}
use linux_veda_4sensor_tcp_c.Server.Boot.Libraries.{
  load_library, load_symbol, Target, Pointers, assign_symbols, led_symbols, buzzer_symbols,
  sensor_symbols, segment_symbols, assign_library, load_libraries,
}
use linux_veda_4sensor_tcp_c.Server.Boot.Main.{
  start_worker, hardware_or_exit, start_workers, announce, start_devices, go_daemon, open_server,
  boot,
}

-- No call that the server needs fails, in the process that `fork` starts.
pub record Works (kernel : Kernel) : Type 0 where
  pub of_readlink : (h : History) → is_neg (kernel h readlink) ≡ false
  pub of_dlopen : (h : History) (path : List ℕ) → (kernel h (dlopen path) ==ℤ pos 0) ≡ false
  pub of_dlerror : (h : History) → kernel h dlerror ≡ pos 0
  pub of_socket : (h : History) → is_neg (kernel h socket) ≡ false
  pub of_reuse : (h : History) (fd : ℤ) → is_neg (kernel h (set_reuse_address fd)) ≡ false
  pub of_bind : (h : History) (fd : ℤ) (port : ℕ) → is_neg (kernel h (bind fd port)) ≡ false
  pub of_listen : (h : History) (fd : ℤ) (n : ℕ) → is_neg (kernel h (listen fd n)) ≡ false
  pub of_fork : (h : History) → kernel h fork ≡ pos 0
  pub of_chdir : (h : History) (path : List ℕ) → is_neg (kernel h (chdir path)) ≡ false
  pub of_thread : (h : History) (w : Worker) → kernel h (pthread_create w) ≡ pos 0

length-library_text :
    (base name : List ℕ) → length (library_text base name) ≡ length base + length name + 8
length-library_text base name =
    let front = b'/' ∷ b'l' ∷ b'i' ∷ b'b' ∷ b'/' ∷ name in
    length-append (base ++ front) (b'.' ∷ b's' ∷ b'o' ∷ [])
    ∙ ap (λ n. n + 3) (length-append base front)
    ∙ omega arith

-- The path of a library fits its buffer of 512 bytes.
library_short :
    (base name : List ℕ)
    → length base + length name < 504
    → library_path base name ≡ some (snprintf 512 (library_text base name))
unfolding library_path
library_short base name short =
    let e = length-library_text base name in
    elim (Bool-cases (leb 512 (length (library_text base name)))) [
      | inl long ↦ absurd (omega (leb→le _ _ long, e, short, arith))
      | inr fits ↦ rw fits refl
    ]

module _ {A : Type 0} where
  abbrev pub Returns : Outcome A × History → Type 0
  Returns = Ends (λ _ _. Unit) (λ _ _. ⊥)

bind-Returns :
    {A B : Type 0} (r : Outcome A × History) (f : A → Action B)
    → Returns r
    → ((a : A) (h : History) → Returns (f a h))
    → Returns {A = B} (elim r.0 [ value a ↦ f a r.1 | exited status ↦ (exited status, r.1) ])
bind-Returns r f p next = bind-Ends (λ _ _. Unit) (λ _ _. Unit) (λ _ _. ⊥) r f p (λ a h _. next a h)

module _ (kernel : Kernel) (host : Host) (works : Works kernel) where
  append-Returns : (line : List ℕ) (fd : ℤ) (h : History) → Returns (append kernel line fd h)
  append-Returns line fd h = elim (Bool-cases (is_neg fd)) [
    | inl failed ↦ rw failed tt
    | inr opened ↦ rw opened tt
  ]

  append_to_tty-Returns :
      (line tty : List ℕ) (h : History) → Returns (append_to_tty kernel line tty h)
  append_to_tty-Returns line [] h = tt
  append_to_tty-Returns line (b ∷ bs) h =
      append-Returns line (kernel h (open_file (b ∷ bs))) (after kernel (open_file (b ∷ bs)) h)

  log_event-Returns : (tty msg : List ℕ) (h : History) → Returns (log_event kernel host tty msg h)
  unfolding log_event
  log_event-Returns tty msg h =
      let line = log_line (host.timebuf h) msg in
      bind-Returns _ (λ _. append_to_tty kernel line tty)
        (append-Returns line (kernel h (open_file log_path)) (after kernel (open_file log_path) h))
        (λ _ h₁. append_to_tty-Returns line tty h₁)

  load_symbol-Returns :
      (handle : ℤ) (name : List ℕ) (h : History) → Returns (load_symbol kernel handle name h)
  unfolding load_symbol
  load_symbol-Returns handle name h = rw (works.of_dlerror) tt

  assign_symbols-Returns :
      (handle : ℤ) (ns : List (Target × List ℕ)) (ps : Pointers) (h : History)
      → Returns (assign_symbols kernel handle ns ps h)
  unfolding assign_symbols
  assign_symbols-Returns handle [] ps h = tt
  assign_symbols-Returns handle ((t, n) ∷ ns) ps h =
      bind-Returns _ (λ symbol. assign_symbols kernel handle ns ((t, handle, n, symbol) ∷ ps))
        (load_symbol-Returns handle n h)
        (λ symbol h₁. assign_symbols-Returns handle ns ((t, handle, n, symbol) ∷ ps) h₁)

  assign_library-Returns :
      (base name : List ℕ) (ns : List (Target × List ℕ)) (ps : Pointers) (h : History)
      → length base + length name < 504
      → Returns (assign_library kernel base name ns ps h)
  unfolding load_library
  assign_library-Returns base name ns ps h short =
      let path = snprintf 512 (library_text base name) in
      bind-Returns _ (λ handle. assign_symbols kernel handle ns ps)
        (rw (library_short base name short) (rw (works.of_dlopen h path) tt))
        (λ handle h₁. assign_symbols-Returns handle ns ps h₁)

  setup_server-Returns : (h : History) → Returns (setup_server kernel port_number h)
  unfolding setup_server
  setup_server-Returns h = rw (works.of_socket, works.of_reuse, works.of_bind, works.of_listen) tt

  redirect-Returns : (fd : ℤ) (h : History) → Returns (redirect kernel fd h)
  redirect-Returns fd h = elim (Bool-cases (is_neg fd)) [
    | inl failed ↦ rw failed tt
    | inr opened ↦ rw opened tt
  ]

  daemonize-Returns : (h : History) → Returns (daemonize kernel h)
  unfolding daemonize
  daemonize-Returns h = rw (works.of_fork) (rw (works.of_chdir) (redirect-Returns _ _))

  start_worker-Returns :
      (tty : List ℕ) (w : Worker) (h : History) → Returns (start_worker kernel host tty w h)
  unfolding start_worker
  start_worker-Returns tty w h = rw (works.of_thread h w) tt

  start_workers-Returns :
      (tty : List ℕ) (w : World) (h : History) → Returns (start_workers kernel host tty w h)
  start_workers-Returns tty w h =
      bind-Returns _
        (λ _.
          start_worker kernel host tty buzzer
          >> (start_worker kernel host tty sensor >> announce kernel host tty w))
        (start_worker-Returns tty led h)
        (λ _ h₁.
          bind-Returns _ (λ _. start_worker kernel host tty sensor >> announce kernel host tty w)
            (start_worker-Returns tty buzzer h₁)
            (λ _ h₂.
              bind-Returns _ (λ _. announce kernel host tty w) (start_worker-Returns tty sensor h₂)
                (λ _ h₃.
                  bind-Returns _ (λ _. pure (State.log_event server_started w))
                    (log_event-Returns tty (bytes_of "SERVER STARTED") h₃) (λ _ _. tt))))

  load_libraries-Returns :
      (base : List ℕ) (h : History) → length base < 497 → Returns (load_libraries kernel base h)
  unfolding load_libraries
  load_libraries-Returns base h short =
      let from_segment = assign_library kernel base (bytes_of "segment") segment_symbols in
      let from_cds = λ (p : Pointers).
        assign_library kernel base (bytes_of "cds") sensor_symbols p >>= from_segment in
      let from_buzzer = λ (p : Pointers).
        assign_library kernel base (bytes_of "buzzer") buzzer_symbols p >>= from_cds in
      bind-Returns _ from_buzzer
        (assign_library-Returns base (bytes_of "led") led_symbols [] h (omega (short, arith)))
        (λ p₁ h₁.
          bind-Returns _ from_cds
            (assign_library-Returns base (bytes_of "buzzer") buzzer_symbols p₁ h₁
              (omega (short, arith)))
            (λ p₂ h₂.
              bind-Returns _ from_segment
                (assign_library-Returns base (bytes_of "cds") sensor_symbols p₂ h₂
                  (omega (short, arith)))
                (λ p₃ h₃.
                  assign_library-Returns base (bytes_of "segment") segment_symbols p₃ h₃
                    (omega (short, arith)))))

  open_server-Returns :
      (base : List ℕ) (h : History) → length base < 497 → Returns (open_server kernel base h)
  open_server-Returns base h short =
      bind-Returns _ (λ _. setup_server kernel port_number >>= go_daemon kernel)
        (load_libraries-Returns base h short)
        (λ _ h₁. bind-Returns _ (go_daemon kernel) (setup_server-Returns h₁) (λ sfd h₂.
          bind-Returns _ (λ _. call kernel (signal sigpipe ignored) >> pure sfd)
            (daemonize-Returns h₂) (λ _ _. tt)))

  start_devices-Returns :
      (tty : List ℕ) (w : World) (h : History)
      → initialize_hardware host.setup initial_world ≡ some w
      → Returns (start_devices kernel host tty h)
  start_devices-Returns tty w h e =
      subst
        (λ o. Returns ((hardware_or_exit kernel host tty o >>= start_workers kernel host tty) h))
        (sym e) (start_workers-Returns tty w h)

  -- If no call fails, the hardware starts and the directory's name leaves room for the libraries'
  -- names, `main` reaches its loop.
  pub boot-Returns :
      (w : World) (h : History)
      → length (base_dir host.link) < 497
      → initialize_hardware host.setup initial_world ≡ some w
      → Returns (boot kernel host h)
  unfolding boot
  boot-Returns w h short e = rw (works.of_readlink h) (
      bind-Returns _ (λ sfd. start_devices kernel host _ >>= λ w. pure (sfd, w))
        (open_server-Returns (base_dir host.link) _ short)
        (λ sfd h₁.
          bind-Returns _ (λ w. pure (sfd, w)) (start_devices-Returns _ w h₁ e) (λ _ _. tt)))
