-- ===== src/Server/Boot/DeviceLaws.antt =====
-- What holds when server/main.c has started the hardware and its threads, or exits.
use linux_veda_4sensor_tcp_c.Prelude.{
  none, Bool, true, false, if◌then◌else◌, arith, ℕ, suc, ◌≡◌, refl, sym, ap, ◌∙◌, subst, ◌⊎◌, inl,
  inr, ℤ, pos, ◌==ℤ◌, is_neg, Bool-cases, Option-cases, ◌≢◌, false, Option, some, List, ◌∷◌,
}
use linux_veda_4sensor_tcp_c.Process.{
  fork, pthread_create, Worker, led, buzzer, sensor, History, Kernel, after, exit, exit_failure,
  pure, ◌>>=◌, ◌>>◌,
}
use linux_veda_4sensor_tcp_c.Process.Text.{bytes_of}
use linux_veda_4sensor_tcp_c.Process.Files.{Object, meaning, IsFresh, threads, signals}
use linux_veda_4sensor_tcp_c.Process.Ends.{Ends, bind-Ends, weaken-Ends}
use linux_veda_4sensor_tcp_c.Server.State
use linux_veda_4sensor_tcp_c.Devices.Board.{Board}
use linux_veda_4sensor_tcp_c.Server.State.{set_board, World, server_started}
use linux_veda_4sensor_tcp_c.Server.Validity.{IsValid}
use linux_veda_4sensor_tcp_c.Server.Accept.{
  init_devices, initial_board, initialize_hardware, initial_world,
}
use linux_veda_4sensor_tcp_c.Server.Boot.{Host}
use linux_veda_4sensor_tcp_c.Server.Boot.Main.{
  log_and_exit, start_worker, hardware_or_exit, start_workers, announce, start_devices,
}
use linux_veda_4sensor_tcp_c.Server.Boot.Faults.{faults, socket_calls, Fails, earlier}
use linux_veda_4sensor_tcp_c.Server.Boot.FileLaws.{Same, log_event-Same}

-- With success only the parent ends, which `fork` gave a positive number; every other end is a
-- failure, because one of the calls since `h₀` has failed or because of `C`.
abbrev pub Exits : Kernel → Type 0 → History → ℕ → History → Type 0
Exits kernel C h₀ status h =
    ((status ≡ 0)
      × ((g : History) × (h ≡ after kernel fork g)
          × (is_neg (kernel g fork) ≡ false)
          × (kernel g fork ≢ pos 0)))
    ⊎ Fails C h₀ status h

pub earlier_exit :
    (kernel : Kernel) (C : Type 0) (h h₁ : History)
    → faults h₁ ≡ faults h
    → (status : ℕ) (h' : History) → Exits kernel C h₁ status h'
    → Exits kernel C h status h'
earlier_exit kernel C h h₁ q status h' (inl parent) = inl parent
earlier_exit kernel C h h₁ q status h' (inr e) = inr (earlier C h h₁ q status h' e)

-- The state in which the loop starts is that of the hardware's initialisation.
abbrev pub IsReady : Host → World → Type 0
IsReady host w =
    (w₀ : World) × (initialize_hardware host.setup initial_world ≡ some w₀)
    × (w ≡ State.log_event server_started w₀)

-- Whatever the board, the flags are those that the program is loaded with.
loaded-IsValid :
    (b : Board) (w : World)
    → w ≡ set_board b initial_world
    → IsValid (State.log_event server_started w)
loaded-IsValid b w e =
    subst (λ v. IsValid (State.log_event server_started v)) (sym e) (ground arith)

pub ready-IsValid : (host : Host) (w : World) → IsReady host w → IsValid w
unfolding initialize_hardware
ready-IsValid host w (w₀, e, same) =
    rw same
      (go (init_devices host.setup initial_board).0 (init_devices host.setup initial_board).1 e)
  where
    go :
        (failed : Bool) (b : Board)
        → (if failed then none else some (set_board b initial_world)) ≡ some w₀
        → IsValid (State.log_event server_started w₀)
    go true b e = absurd (cc)
    go false b e = loaded-IsValid b w₀ (cc)

module _ (start : ℤ → Option Object) (kernel : Kernel) (fresh : IsFresh start kernel) (host : Host)
    (tty : List ℕ) (C : Type 0) where
  -- From `h` on, with the workers `ws` more.
  pub record Grown (ws : List Worker) (h h' : History) : Type 0 where
    pub table : (fd : ℤ) → meaning start h' fd ≡ meaning start h fd
    pub workers : threads h' ≡ ws
    pub handled : signals h' ≡ signals h
    pub same_calls : socket_calls h' ≡ socket_calls h
    pub no_fault : faults h' ≡ faults h

  log_and_exit-Ends :
      {A : Type 0} (P : A → History → Type 0) (msg : List ℕ) (h₀ h : History)
      → (faults h ≡ suc (faults h₀)) ⊎ C
      → Ends P (Exits kernel C h₀) (log_and_exit kernel host tty msg h)
  log_and_exit-Ends P msg h₀ h cause =
      bind-Ends (λ _ h'. Same start kernel h h') P (Exits kernel C h₀) _ (λ _. exit exit_failure)
        (weaken-Ends (λ _ h'. Same start kernel h h') (λ _ h'. Same start kernel h h') (λ _ _. ⊥)
          (Exits kernel C h₀) _ (log_event-Same start kernel fresh host tty msg h) (λ _ _ s. s)
          (λ _ _ e. absurd e))
        (λ _ h' s. inr (refl, elim cause [ inl e ↦ inl (s.no_fault ∙ e) | inr c ↦ inr c ]))

  start_worker-Ends :
      (w : Worker) (h : History)
      → Ends (λ _. Grown (w ∷ threads h) h) (Exits kernel C h) (start_worker kernel host tty w h)
  unfolding start_worker meaning
  start_worker-Ends w h = elim (Bool-cases (kernel h (pthread_create w) ==ℤ pos 0)) [
    | inl started ↦ rw started (record {
      table = λ fd. refl;
      workers = rw started refl;
      handled = refl;
      same_calls = refl;
      no_fault = rw started refl;
    })
    | inr failed ↦
        rw failed (log_and_exit-Ends (λ _. Grown (w ∷ threads h) h) _ h _ (inl (rw failed refl)))
  ]

  next_worker :
      (w : Worker) (ws : List Worker) (g h : History)
      → Grown ws g h
      → Ends (λ _. Grown (w ∷ ws) g) (Exits kernel C g) (start_worker kernel host tty w h)
  next_worker w ws g h a =
      weaken-Ends (λ _. Grown (w ∷ threads h) h) (λ _. Grown (w ∷ ws) g) (Exits kernel C h)
        (Exits kernel C g) _ (start_worker-Ends w h)
        (λ _ k b. record {
          table = λ fd. b.table fd ∙ a.table fd;
          workers = b.workers ∙ ap (λ vs. w ∷ vs) a.workers;
          handled = b.handled ∙ a.handled;
          same_calls = b.same_calls ∙ a.same_calls;
          no_fault = b.no_fault ∙ a.no_fault;
        })
        (earlier_exit kernel C g h a.no_fault)

  abbrev pub Started : List Worker → History → World → History → Type 0
  Started ws h w h' = Grown ws h h' × IsReady host w

  announce-Ends :
      (w₀ : World) (ws : List Worker) (g h : History)
      → initialize_hardware host.setup initial_world ≡ some w₀
      → Grown ws g h
      → Ends (Started ws g) (Exits kernel C g) (announce kernel host tty w₀ h)
  announce-Ends w₀ ws g h e a =
      bind-Ends (λ _ h'. Same start kernel h h') (Started ws g) (Exits kernel C g) _
        (λ _. pure (State.log_event server_started w₀))
        (weaken-Ends (λ _ h'. Same start kernel h h') (λ _ h'. Same start kernel h h') (λ _ _. ⊥)
          (Exits kernel C g) _
          (log_event-Same start kernel fresh host tty (bytes_of "SERVER STARTED") h) (λ _ _ s. s)
          (λ _ _ e. absurd e))
        (λ _ k s. (
          record {
            table = λ fd. s.table fd ∙ a.table fd;
            workers = s.same_threads ∙ a.workers;
            handled = s.same_signals ∙ a.handled;
            same_calls = s.same_calls ∙ a.same_calls;
            no_fault = s.no_fault ∙ a.no_fault;
          },
          (w₀, e, refl),
        ))

  start_workers-Ends :
      (w₀ : World) (h : History)
      → initialize_hardware host.setup initial_world ≡ some w₀
      → Ends
          (Started (sensor ∷ buzzer ∷ led ∷ threads h) h)
          (Exits kernel C h)
          (start_workers kernel host tty w₀ h)
  start_workers-Ends w₀ h e =
      let end = Started (sensor ∷ buzzer ∷ led ∷ threads h) h in
      bind-Ends (λ _. Grown (led ∷ threads h) h) end (Exits kernel C h) _
        (λ _.
          start_worker kernel host tty buzzer
          >> (start_worker kernel host tty sensor >> announce kernel host tty w₀))
        (start_worker-Ends led h)
        (λ _ h₁ a.
          bind-Ends (λ _. Grown (buzzer ∷ led ∷ threads h) h) end (Exits kernel C h) _
            (λ _. start_worker kernel host tty sensor >> announce kernel host tty w₀)
            (next_worker buzzer (led ∷ threads h) h h₁ a)
            (λ _ h₂ b.
              bind-Ends (λ _. Grown (sensor ∷ buzzer ∷ led ∷ threads h) h) end (Exits kernel C h) _
                (λ _. announce kernel host tty w₀)
                (next_worker sensor (buzzer ∷ led ∷ threads h) h h₂ b)
                (λ _ h₃ c. announce-Ends w₀ _ h h₃ e c)))

  pub start_devices-Ends :
      (h : History)
      → (initialize_hardware host.setup initial_world ≡ none → C)
      → Ends
          (Started (sensor ∷ buzzer ∷ led ∷ threads h) h)
          (Exits kernel C h)
          (start_devices kernel host tty h)
  start_devices-Ends h no_hardware =
      elim (Option-cases (initialize_hardware host.setup initial_world)) [
        | inl broken ↦
            subst
              (λ o.
                Ends (Started (sensor ∷ buzzer ∷ led ∷ threads h) h) (Exits kernel C h)
                  ((hardware_or_exit kernel host tty o >>= start_workers kernel host tty) h))
              (sym broken)
              (bind-Ends (λ _ _. ⊥) (Started (sensor ∷ buzzer ∷ led ∷ threads h) h)
                (Exits kernel C h) _ (start_workers kernel host tty)
                (log_and_exit-Ends (λ _ _. ⊥) (bytes_of "HARDWARE INITIALIZATION FAILED") h h
                  (inr (no_hardware broken)))
                (λ _ _ e. absurd e))
        | inr (w₀, e) ↦
            subst
              (λ o.
                Ends (Started (sensor ∷ buzzer ∷ led ∷ threads h) h) (Exits kernel C h)
                  ((hardware_or_exit kernel host tty o >>= start_workers kernel host tty) h))
              (sym e) (start_workers-Ends w₀ h e)
      ]
