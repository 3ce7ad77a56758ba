-- ===== src/Server/Boot/MainLaws.antt =====
-- What holds when `main` of server/main.c reaches its loop.
use linux_veda_4sensor_tcp_c.Prelude.{
  ℕ, suc, ◌<◌, ◌≡◌, refl, sym, ap, ◌∙◌, ◌⊎◌, inl, inr, ℤ, pos, negsuc, ==ℤ_refl, ltb, ltb→lt, arith,
  is_neg, Bool-cases, ◌≢◌, false, Option, none, some, List, [], ◌∷◌, ◌++◌,
}
use linux_veda_4sensor_tcp_c.Process.{
  fork, readlink, ttyname, signal, sigpipe, sighup, ignored, led, buzzer, sensor, History, Kernel,
  after, pure, call, ◌>>=◌, ◌>>◌,
}
use linux_veda_4sensor_tcp_c.Process.Files.{Object, network, meaning, IsFresh, threads, signals}
use linux_veda_4sensor_tcp_c.Process.Ends.{Ends, bind-Ends, weaken-Ends}
use linux_veda_4sensor_tcp_c.Server.State.{World}
use linux_veda_4sensor_tcp_c.Server.System
use linux_veda_4sensor_tcp_c.Server.System.{run}
use linux_veda_4sensor_tcp_c.Server.Validity.{IsValid, run_from-IsValid}
use linux_veda_4sensor_tcp_c.Server.Boot.{Host}
use linux_veda_4sensor_tcp_c.Server.Boot.Listener.{port_number, setup_server}
use linux_veda_4sensor_tcp_c.Server.Boot.Main.{
  start_devices, go_daemon, open_server, boot_from, boot,
}
use linux_veda_4sensor_tcp_c.Server.Boot.Faults.{faults, socket_calls, resolved}
use linux_veda_4sensor_tcp_c.Server.Boot.FileLaws.{Same}
use linux_veda_4sensor_tcp_c.Server.Boot.ListenLaws.{Listens, listening_calls, setup_server-Ends}
use linux_veda_4sensor_tcp_c.Server.Text.{base_dir}
use linux_veda_4sensor_tcp_c.Server.Accept.{initialize_hardware, initial_world}
use linux_veda_4sensor_tcp_c.Server.Boot.DaemonLaws.{Detached, daemonize-Ends}
use linux_veda_4sensor_tcp_c.Server.Boot.Symbols.{all_targets, TooLong}
use linux_veda_4sensor_tcp_c.Server.Boot.LibraryLaws.{Assigned, all_libraries-Ends}
use linux_veda_4sensor_tcp_c.Server.Boot.DeviceLaws.{
  ready-IsValid, Exits, earlier_exit, IsReady, Started, start_devices-Ends,
}

-- The descriptor `sfd` is still that of the network, or it is that of a standard stream which was
-- closed at `h`.
abbrev pub IsServing : (ℤ → Option Object) → History → ℤ → History → Type 0
IsServing start h sfd h' =
    (meaning start h' sfd ≡ some network)
    ⊎ ((n : ℕ) × (sfd ≡ pos n) × (n < 3) × (meaning start h sfd ≡ none))

-- What ends the process besides a call that fails: a path that is too long, and the hardware.
abbrev pub IsUnready : Host → Type 0
IsUnready host =
    TooLong (base_dir host.link) ⊎ (initialize_hardware host.setup initial_world ≡ none)

record Detaches (start : ℤ → Option Object) (h : History) (sfd : ℤ) (h' : History) : Type 0 where
  serving : IsServing start h sfd h'
  calls : socket_calls h' ≡ listening_calls port_number sfd ++ socket_calls h
  no_fault : faults h' ≡ faults h
  alone : threads h' ≡ []
  handled : signals h' ≡ (sigpipe, ignored) ∷ (sighup, ignored) ∷ signals h

module _ (start : ℤ → Option Object) (kernel : Kernel) (fresh : IsFresh start kernel)
    (C : Type 0) where
  still-IsServing :
      (sfd : ℤ) (h h₂ h₃ : History)
      → is_neg sfd ≡ false
      → meaning start h sfd ≡ none
      → meaning start h₂ sfd ≡ some network
      → Detached start kernel h₂ h₃
      → IsServing start h sfd h₃
  still-IsServing (negsuc n) h h₂ h₃ number unused listens d = cc
  still-IsServing (pos n) h h₂ h₃ number unused listens d = elim (Bool-cases (ltb 2 n)) [
    | inl high ↦ inl (d.high n (ltb→lt 2 n high) ∙ listens)
    | inr low ↦ inr (n, refl, ground (low, arith), unused)
  ]

  go_daemon-Ends :
      (sfd : ℤ) (h h₁ h₂ : History)
      → Same start kernel h h₁
      → Listens start kernel fresh port_number h₁ sfd h₂
      → Ends (Detaches start h) (Exits kernel C h) (go_daemon kernel sfd h₂)
  unfolding meaning
  go_daemon-Ends sfd h h₁ h₂ same l =
      bind-Ends (λ _ h'. (kernel h₂ fork ≡ pos 0) × Detached start kernel h₂ h') (Detaches start h)
        (Exits kernel C h) _ (λ _. call kernel (signal sigpipe ignored) >> pure sfd)
        (weaken-Ends _ (λ _ h'. (kernel h₂ fork ≡ pos 0) × Detached start kernel h₂ h') _
          (Exits kernel C h) _ (daemonize-Ends start kernel fresh h₂) (λ _ _ d. d) daemon_exit)
        (λ _ h₃ d. record {
          serving =
              still-IsServing sfd h h₂ h₃ l.number (sym (same.table sfd) ∙ l.unused)
                (l.table sfd ∙ rw (==ℤ_refl sfd) refl) d.1;
          calls =
              d.1.same_calls
              ∙ l.calls
              ∙ ap (λ cs. listening_calls port_number sfd ++ cs) same.same_calls;
          no_fault = d.1.no_fault ∙ l.no_fault ∙ same.no_fault;
          alone = d.1.alone;
          handled =
              ap (λ s. (sigpipe, ignored) ∷ s)
                (d.1.hangup ∙ ap (λ s. (sighup, ignored) ∷ s) (l.same_signals ∙ same.same_signals));
        })
    where
      daemon_exit :
          (status : ℕ) (h' : History)
          → ((status ≡ 0)
              × (h' ≡ after kernel fork h₂)
              × (is_neg (kernel h₂ fork) ≡ false)
              × (kernel h₂ fork ≢ pos 0))
            ⊎ ((status ≡ 1) × (faults h' ≡ suc (faults h₂)))
          → (Exits kernel C h) status h'
      daemon_exit status h' (inl (z, f, n, p)) = inl (z, (h₂, f, n, p))
      daemon_exit status h' (inr (z, e)) = inr (z, inl (e ∙ ap suc (l.no_fault ∙ same.no_fault)))

  open_server-Ends :
      (base : List ℕ) (h : History)
      → resolved h ≡ []
      → (TooLong base → C)
      → Ends (Detaches start h) (Exits kernel C h) (open_server kernel base h)
  open_server-Ends base h none_yet long =
      bind-Ends (Assigned start kernel all_targets h) (Detaches start h) (Exits kernel C h) _
        (λ _. setup_server kernel port_number >>= go_daemon kernel)
        (weaken-Ends (Assigned start kernel all_targets h) _ _ (Exits kernel C h) _
          (all_libraries-Ends start kernel C base h none_yet long) (λ _ _ a. a) (λ _ _ e. inr e))
        (λ _ h₁ a.
          bind-Ends (Listens start kernel fresh port_number h₁) (Detaches start h)
            (Exits kernel C h) _ (go_daemon kernel)
            (weaken-Ends _ (Listens start kernel fresh port_number h₁) _ (Exits kernel C h) _
              (setup_server-Ends start kernel fresh port_number h₁) (λ _ _ l. l)
              (λ _ _ e. inr (e.0, inl (e.2 ∙ ap suc a.same.no_fault))))
            (λ sfd h₂ l. go_daemon-Ends sfd h h₁ h₂ a.same l))

-- What `main` has when it comes to its loop: the socket, the state, the threads and the handling of
-- the signals.
pub record Reaches (start : ℤ → Option Object) (host : Host) (h : History) (r : ℤ × World)
    (h' : History) : Type 0 where
  pub serving : IsServing start h r.0 h'
  pub calls : socket_calls h' ≡ listening_calls port_number r.0 ++ socket_calls h
  pub no_fault : faults h' ≡ faults h
  pub workers : threads h' ≡ sensor ∷ buzzer ∷ led ∷ []
  pub handled : signals h' ≡ (sigpipe, ignored) ∷ (sighup, ignored) ∷ signals h
  pub ready : IsReady host r.1
  pub valid : (acts : List System.Action) → IsValid (run acts r.1)

module _ (start : ℤ → Option Object) (kernel : Kernel) (fresh : IsFresh start kernel)
    (host : Host) where
  boot_from-Ends :
      (tty : List ℕ) (h : History)
      → resolved h ≡ []
      → Ends
          (Reaches start host h)
          (Exits kernel (IsUnready host) h)
          (boot_from kernel host tty (base_dir host.link) h)
  boot_from-Ends tty h none_yet =
      bind-Ends (Detaches start h) (Reaches start host h) (Exits kernel (IsUnready host) h) _
        (λ sfd. start_devices kernel host tty >>= λ w. pure (sfd, w))
        (open_server-Ends start kernel fresh (IsUnready host) (base_dir host.link) h none_yet
          (λ long. inl long))
        (λ sfd h₁ d.
          bind-Ends
            (Started start kernel fresh host tty (IsUnready host)
              (sensor ∷ buzzer ∷ led ∷ threads h₁) h₁)
            (Reaches start host h) (Exits kernel (IsUnready host) h) _ (λ w. pure (sfd, w))
            (weaken-Ends
              (Started start kernel fresh host tty (IsUnready host)
                (sensor ∷ buzzer ∷ led ∷ threads h₁) h₁)
              _ (Exits kernel (IsUnready host) h₁) (Exits kernel (IsUnready host) h) _
              (start_devices-Ends start kernel fresh host tty (IsUnready host) h₁
                (λ broken. inr broken))
              (λ _ _ s. s) (earlier_exit kernel (IsUnready host) h h₁ d.no_fault))
            (λ w h₂ s. record {
              serving = elim d.serving [
                | inl listens ↦ inl (s.0.table sfd ∙ listens)
                | inr low ↦ inr low
              ];
              calls = s.0.same_calls ∙ d.calls;
              no_fault = s.0.no_fault ∙ d.no_fault;
              workers = s.0.workers ∙ ap (λ ws. sensor ∷ buzzer ∷ led ∷ ws) d.alone;
              handled = s.0.handled ∙ d.handled;
              ready = s.1;
              valid = λ acts. run_from-IsValid acts w (ready-IsValid host w s.1);
            }))

  -- If `main` reaches its loop, then none of the calls it cannot do without has failed: `readlink`,
  -- the libraries' `dlopen` and lookups, the four calls of the socket, `fork`, `chdir` and the
  -- threads. The descriptor that it accepts on was bound to port 8080 and listens, by the only
  -- calls of `socket`, `setsockopt`, `bind` and `listen`, and it is still the network's, unless it
  -- has the number of a standard stream and that was closed when `main` began. The three worker
  -- threads, and no other, run in the process; SIGHUP and SIGPIPE are ignored; and the state is the
  -- initial one behind the hardware's initialisation, with the log entry, in and after which the
  -- flags are valid whatever the server is asked and however its threads take turns. It exits with
  -- success only in the parent of `fork`, and with failure only if one of these calls has failed, a
  -- library's path does not fit its buffer or the hardware does not start. A new descriptor has a
  -- number not in use, and no symbol has been looked up before.
  pub boot-Ends :
      (h : History)
      → resolved h ≡ []
      → Ends (Reaches start host h) (Exits kernel (IsUnready host) h) (boot kernel host h)
  unfolding boot meaning
  boot-Ends h none_yet = elim (Bool-cases (is_neg (kernel h readlink))) [
    | inl failed ↦ rw failed (inr (refl, inl (rw failed refl)))
    | inr found ↦ rw found (
        weaken-Ends (Reaches start host (after kernel ttyname (after kernel readlink h)))
          (Reaches start host h)
          (Exits kernel (IsUnready host) (after kernel ttyname (after kernel readlink h)))
          (Exits kernel (IsUnready host) h) _
          (boot_from-Ends _ (after kernel ttyname (after kernel readlink h)) none_yet)
          (λ _ _ s. record {
            serving = s.serving;
            calls = s.calls;
            no_fault = s.no_fault ∙ rw found refl;
            workers = s.workers;
            handled = s.handled;
            ready = s.ready;
            valid = s.valid;
          })
          (earlier_exit kernel (IsUnready host) h (after kernel ttyname (after kernel readlink h))
            (rw found refl)))
  ]
