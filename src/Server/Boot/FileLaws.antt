-- ===== src/Server/Boot/FileLaws.antt =====
-- The descriptors that log_event of server/main.c opens, and closes again.
use linux_veda_4sensor_tcp_c.Prelude.{
  ℕ, ◌≡◌, refl, sym, ap, ◌∙◌, inl, inr, ℤ, pos, ◌==ℤ◌, eq_of_==ℤ, is_neg, Bool-cases, false, Option,
  List, [], ◌∷◌,
}
use linux_veda_4sensor_tcp_c.Process.{open_file, write, close, History, Kernel}
use linux_veda_4sensor_tcp_c.Process.Files.{Object, meaning, IsFresh, threads, signals}
use linux_veda_4sensor_tcp_c.Process.Ends.{Ends, bind-Ends, weaken-Ends}
use linux_veda_4sensor_tcp_c.Server.Boot.Faults.{faults, socket_calls}
use linux_veda_4sensor_tcp_c.Server.Text.{log_line}
use linux_veda_4sensor_tcp_c.Server.Boot.{Host}
use linux_veda_4sensor_tcp_c.Server.Boot.Log.{log_path, append, append_to_tty, log_event}

module _ (start : ℤ → Option Object) (kernel : Kernel) where
  -- Every descriptor stands for what it stood for before, the threads and the handling of the
  -- signals are what they were, nothing was done with sockets, and no needed call has failed.
  pub record Same (h h' : History) : Type 0 where
    pub table : (fd : ℤ) → meaning start h' fd ≡ meaning start h fd
    pub same_threads : threads h' ≡ threads h
    pub same_signals : signals h' ≡ signals h
    pub same_calls : socket_calls h' ≡ socket_calls h
    pub no_fault : faults h' ≡ faults h

  pub Same-trans : (g h k : History) → Same g h → Same h k → Same g k
  Same-trans g h k a b = record {
    table = λ fd. b.table fd ∙ a.table fd;
    same_threads = b.same_threads ∙ a.same_threads;
    same_signals = b.same_signals ∙ a.same_signals;
    same_calls = b.same_calls ∙ a.same_calls;
    no_fault = b.no_fault ∙ a.no_fault;
  }

  module _ (fresh : IsFresh start kernel) where
    -- A file that is opened, written and closed leaves the table as it was.
    opened_and_closed :
        (path text : List ℕ) (h : History)
        → let r = kernel h (open_file path) in
          is_neg r ≡ false
          → (a b : ℤ) (fd : ℤ)
          → meaning start ((close r, a) ∷ (write r text, b) ∷ (open_file path, r) ∷ h) fd
            ≡ meaning start h fd
    unfolding meaning
    opened_and_closed path text h opened a b fd =
        let r = kernel h (open_file path) in
        elim (Bool-cases (r ==ℤ fd)) [
          | inl same ↦
              rw same
                (sym (fresh.of_open h path opened) ∙ ap (meaning start h) (eq_of_==ℤ r fd same))
          | inr other ↦ rw (other, opened) refl
        ]

    append-Same :
        (line path : List ℕ) (h : History)
        → let r = kernel h (open_file path) in
          Ends (λ _ h'. Same h h') (λ _ _. ⊥) (append kernel line r ((open_file path, r) ∷ h))
    unfolding meaning
    append-Same line path h = elim (Bool-cases (is_neg (kernel h (open_file path)))) [
      | inl failed ↦ rw failed (record {
        table = λ fd. rw failed refl;
        same_threads = refl;
        same_signals = refl;
        same_calls = refl;
        no_fault = refl;
      })
      | inr opened ↦ rw opened (record {
        table = opened_and_closed path line h opened (pos 0) (pos 0);
        same_threads = refl;
        same_signals = refl;
        same_calls = refl;
        no_fault = refl;
      })
    ]

    append_to_tty-Same :
        (line tty : List ℕ) (h : History)
        → Ends (λ _ h'. Same h h') (λ _ _. ⊥) (append_to_tty kernel line tty h)
    append_to_tty-Same line [] h = record {
      table = λ fd. refl;
      same_threads = refl;
      same_signals = refl;
      same_calls = refl;
      no_fault = refl;
    }
    append_to_tty-Same line (b ∷ bs) h = append-Same line (b ∷ bs) h

    -- A log entry leaves no descriptor open, and never ends the process.
    pub log_event-Same :
        (host : Host) (tty msg : List ℕ) (h : History)
        → Ends (λ _ h'. Same h h') (λ _ _. ⊥) (log_event kernel host tty msg h)
    unfolding log_event
    log_event-Same host tty msg h =
        let line = log_line (host.timebuf h) msg in
        bind-Ends (λ _ h'. Same h h') (λ _ h'. Same h h') (λ _ _. ⊥) _
          (λ _. append_to_tty kernel line tty) (append-Same line log_path h)
          (λ _ h' same.
            weaken-Ends (λ _ h''. Same h' h'') (λ _ h''. Same h h'') (λ _ _. ⊥) (λ _ _. ⊥) _
              (append_to_tty-Same line tty h') (λ _ h'' more. Same-trans h h' h'' same more)
              (λ _ _ e. e))
