-- ===== src/Server/Boot/ListenLaws.antt =====
-- setup_server of server/main.c: what it leaves open, and what it closes again.
use linux_veda_4sensor_tcp_c.Prelude.{
  ℕ, suc, ◌≡◌, refl, sym, ap, ◌∙◌, inl, inr, ℤ, pos, ◌==ℤ◌, eq_of_==ℤ, is_neg, if◌then◌else◌,
  Bool-cases, false, Option, none, some, List, [], ◌∷◌, ◌++◌,
}
use linux_veda_4sensor_tcp_c.Process.{
  Call, socket, set_reuse_address, bind, listen, close, History, Kernel,
}
use linux_veda_4sensor_tcp_c.Process.Files.{Object, network, meaning, IsFresh, threads, signals}
use linux_veda_4sensor_tcp_c.Process.Ends.{Ends}
use linux_veda_4sensor_tcp_c.Server.Boot.Faults.{faults, socket_calls}
use linux_veda_4sensor_tcp_c.Server.Boot.Listener.{prepare, setup_server}
use linux_veda_4sensor_tcp_c.Server.Clients.{max_clients}

-- A listening socket is made by these calls, the last one first.
abbrev pub listening_calls : ℕ → ℤ → List Call
listening_calls port sfd =
    listen sfd max_clients ∷ bind sfd port ∷ set_reuse_address sfd ∷ socket ∷ []

module _ (start : ℤ → Option Object) (kernel : Kernel) where
  -- Every descriptor stands for what it stood for before, and the threads and the handling of the
  -- signals are what they were.
  pub record Restored (h h' : History) : Type 0 where
    pub table : (fd : ℤ) → meaning start h' fd ≡ meaning start h fd
    pub same_threads : threads h' ≡ threads h
    pub same_signals : signals h' ≡ signals h

  module _ (fresh : IsFresh start kernel) where
    -- The socket, closed behind a call that failed.
    socket_and_closed :
        (h : History)
        → let sfd = kernel h socket in
          is_neg sfd ≡ false
          → (fd : ℤ)
          → meaning start ((close sfd, pos 0) ∷ (socket, sfd) ∷ h) fd ≡ meaning start h fd
    unfolding meaning
    socket_and_closed h opened fd =
        let sfd = kernel h socket in
        elim (Bool-cases (sfd ==ℤ fd)) [
          | inl same ↦
              rw same
                (sym (fresh.of_socket h opened) ∙ ap (meaning start h) (eq_of_==ℤ sfd fd same))
          | inr other ↦ rw (other, opened) refl
        ]

    -- A socket that listens on the port, with a number that was free, and nothing else new: it was
    -- made by the four calls, none of which failed.
    pub record Listens (port : ℕ) (h : History) (sfd : ℤ) (h' : History) : Type 0 where
      pub number : is_neg sfd ≡ false
      pub unused : meaning start h sfd ≡ none
      pub calls : socket_calls h' ≡ listening_calls port sfd ++ socket_calls h
      pub no_fault : faults h' ≡ faults h
      pub table :
          (fd : ℤ) → meaning start h' fd ≡ (if sfd ==ℤ fd then some network else meaning start h fd)
      pub same_threads : threads h' ≡ threads h
      pub same_signals : signals h' ≡ signals h

    -- One of the calls made has failed, and the descriptors are what they were.
    abbrev pub GivesUp : History → ℕ → History → Type 0
    GivesUp h status h' = (status ≡ 1) × Restored h h' × (faults h' ≡ suc (faults h))

    prepare-Ends :
        (port : ℕ) (h : History)
        → let sfd = kernel h socket in
          is_neg sfd ≡ false
          → Ends (Listens port h) (GivesUp h) (prepare kernel port sfd ((socket, sfd) ∷ h))
    unfolding meaning
    prepare-Ends port h opened =
        let sfd = kernel h socket in
        let h₁ = (socket, sfd) ∷ h in
        let h₂ = (set_reuse_address sfd, kernel h₁ (set_reuse_address sfd)) ∷ h₁ in
        let h₃ = (bind sfd port, kernel h₂ (bind sfd port)) ∷ h₂ in
        elim (Bool-cases (is_neg (kernel h₁ (set_reuse_address sfd)))) [
          | inl failed ↦ rw failed (
            refl,
            (record {
              table = socket_and_closed h opened;
              same_threads = refl;
              same_signals = refl;
            }),
            rw (failed, opened) refl,
          )
          | inr reused ↦ rw reused (elim (Bool-cases (is_neg (kernel h₂ (bind sfd port)))) [
            | inl failed ↦ rw failed (
              refl,
              (record {
                table = socket_and_closed h opened;
                same_threads = refl;
                same_signals = refl;
              }),
              rw (failed, reused, opened) refl,
            )
            | inr bound ↦
                rw bound (elim (Bool-cases (is_neg (kernel h₃ (listen sfd max_clients)))) [
                  | inl failed ↦ rw failed (
                    refl,
                    (record {
                      table = socket_and_closed h opened;
                      same_threads = refl;
                      same_signals = refl;
                    }),
                    rw (failed, bound, reused, opened) refl,
                  )
                  | inr listening ↦ rw listening (record {
                    number = opened;
                    unused = fresh.of_socket h opened;
                    calls = refl;
                    no_fault = rw (listening, bound, reused, opened) refl;
                    table = λ fd. rw opened refl;
                    same_threads = refl;
                    same_signals = refl;
                  })
                ])
          ])
        ]

    -- When `setup_server` returns, it has made the four calls on one new descriptor, in order, with
    -- the port and `MAX_CLIENTS`; none of them has failed; the descriptor is the network's and had
    -- no meaning before; and the other descriptors, the threads and the signals are what they were.
    -- It exits with failure, with no descriptor more than before, only if one of the calls that it
    -- made has failed. A new descriptor has a number not in use.
    pub setup_server-Ends :
        (port : ℕ) (h : History) → Ends (Listens port h) (GivesUp h) (setup_server kernel port h)
    unfolding setup_server meaning
    setup_server-Ends port h = elim (Bool-cases (is_neg (kernel h socket))) [
      | inl failed ↦ rw failed (
        refl,
        record { table = λ fd. rw failed refl; same_threads = refl; same_signals = refl },
        rw failed refl,
      )
      | inr opened ↦ rw opened (prepare-Ends port h opened)
    ]
