-- ===== src/Client/StartupLaws.antt =====
-- What holds when `main` of client/main.c reaches its loop, and when it ends.
use linux_veda_4sensor_tcp_c.Prelude.{
  ℕ, ◌+◌, ◌≡◌, refl, ◌⊎◌, ℤ, pos, ◌==ℤ◌, is_neg, if◌then◌else◌, ◌||◌, Bool-cases, inl, inr, true,
  false, Option, none, some, List, [], ◌∷◌, ◌++◌,
}
use linux_veda_4sensor_tcp_c.Process.{
  socket, inet_pton, connect, pthread_create, report, Signal, Handler, sighup, sigpipe, sigint,
  sigterm, sigtstp, sigquit, signal, ignored, terminates, receiver, History, Kernel, after, exited,
}
use linux_veda_4sensor_tcp_c.Process.Files.{Object, network, meaning, IsFresh, threads, signals}
use linux_veda_4sensor_tcp_c.Process.Ends.{Ends}
use linux_veda_4sensor_tcp_c.Client.Console.{Session}
use linux_veda_4sensor_tcp_c.Client.Startup.{
  signal_number, termination_handler, server_ip, reach, connected_to, connect_server,
}

-- Ended by the terminal or by `kill`, else only by its menu.
abbrev pub handling : List (Signal × Handler)
handling =
    (sigquit, ignored)
    ∷ (sigtstp, ignored)
    ∷ (sigpipe, ignored)
    ∷ (sighup, ignored)
    ∷ (sigterm, terminates)
    ∷ (sigint, terminates)
    ∷ []

module _ (start : ℤ → Option Object) (kernel : Kernel) (fresh : IsFresh start kernel) where
  -- A connected socket, the handling of the signals, and the thread `receiver` if there could be one.
  pub record Connects (h : History) (sock : ℤ) (h' : History) : Type 0 where
    pub number : is_neg sock ≡ false
    pub table :
        (fd : ℤ) → meaning start h' fd ≡ (if sock ==ℤ fd then some network else meaning start h fd)
    pub unused : meaning start h sock ≡ none
    pub workers :
        (k : History) × (threads h' ≡ (
          if kernel k (pthread_create receiver) ==ℤ pos 0 then receiver ∷ threads h else threads h))
    pub handled : signals h' ≡ handling ++ signals h

  -- Why a client gives up: no socket, no address, or no connection.
  abbrev pub Hindered : List ℕ → History → Type 0
  Hindered ip g =
      (is_neg (kernel g socket) ≡ true)
      ⊎ (((is_neg (kernel g (inet_pton ip)) || kernel g (inet_pton ip) ==ℤ pos 0) ≡ true)
          ⊎ ((sock : ℤ) × (is_neg (kernel g (connect sock)) ≡ true)))

  -- No thread is left to a client that gives up, and its signals are handled.
  abbrev pub GivesUp : Option (List ℕ) → History → ℕ → History → Type 0
  GivesUp arg h status h' =
      (status ≡ 1)
      × (threads h' ≡ threads h)
      × (signals h' ≡ handling ++ signals h)
      × ((g : History) × Hindered (server_ip arg) g)

  abbrev signalled : History → History
  signalled h = after kernel (signal sigquit ignored) (
      after kernel (signal sigtstp ignored) (
        after kernel (signal sigpipe ignored) (
          after kernel (signal sighup ignored) (
            after kernel (signal sigterm terminates) (after kernel (signal sigint terminates) h)))))

  reach-Ends :
      (arg : Option (List ℕ)) (h : History)
      → let h₁ = signalled h in
        is_neg (kernel h₁ socket) ≡ false
        → Ends
            (Connects h)
            (GivesUp arg h)
            (reach kernel (server_ip arg) (kernel h₁ socket) (after kernel socket h₁))
  unfolding meaning
  reach-Ends arg h opened =
      let ip = server_ip arg in
      let sock = kernel (signalled h) socket in
      let h₂ = after kernel socket (signalled h) in
      let h₃ = after kernel (inet_pton ip) h₂ in
      let h₄ = after kernel (connect sock) h₃ in
      elim (Bool-cases (is_neg (kernel h₂ (inet_pton ip)) || kernel h₂ (inet_pton ip) ==ℤ pos 0)) [
        | inl wrong ↦ rw wrong (refl, refl, refl, (h₂, inr (inl wrong)))
        | inr parsed ↦ rw parsed (elim (Bool-cases (is_neg (kernel h₃ (connect sock)))) [
          | inl refused ↦ rw refused (refl, refl, refl, (h₃, inr (inr (sock, refused))))
          | inr connected ↦ rw connected (record {
            number = opened;
            table = λ fd. rw opened refl;
            unused = fresh.of_socket (signalled h) opened;
            workers = (after kernel (report (connected_to ip)) h₄, refl);
            handled = refl;
          })
        ])
      ]

  pub connect_server-Ends :
      (arg : Option (List ℕ)) (h : History)
      → Ends (Connects h) (GivesUp arg h) (connect_server kernel arg h)
  unfolding connect_server
  connect_server-Ends arg h = elim (Bool-cases (is_neg (kernel (signalled h) socket))) [
    | inl failed ↦ rw failed (refl, refl, refl, (signalled h, inl failed))
    | inr opened ↦ rw opened (reach-Ends arg h opened)
  ]

  -- The session is `t`, and every descriptor stands for what it stood for before.
  pub record Finishes (t : Session) (h : History) (r : Option Session) (h' : History) : Type 0 where
    session : r ≡ some t
    table : (fd : ℤ) → meaning start h' fd ≡ meaning start h fd
    handled : signals h' ≡ handling ++ signals h

  -- Whatever the signal, the handler ends the process with 128 and its number, behind closing the
  -- socket if there is one; no other descriptor is touched.
  pub termination_handler_lem :
      (sock : ℤ) (sig : Signal) (h : History) (fd : ℤ)
      → let r = termination_handler kernel sock sig h in
        (r.0 ≡ exited (128 + signal_number sig))
        × (meaning start r.1 fd ≡ (
            if is_neg sock
            then meaning start h fd
            else if sock ==ℤ fd
            then none
            else meaning start h fd))
  unfolding termination_handler meaning
  termination_handler_lem sock sig h fd = elim (Bool-cases (is_neg sock)) [
    | inl never ↦ rw never (refl, refl)
    | inr opened ↦ rw opened (refl, refl)
  ]
