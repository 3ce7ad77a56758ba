-- ===== src/Server/Boot/DaemonLaws.antt =====
-- What daemonize of server/daemon.c leaves: one process without threads, and its descriptors.
use linux_veda_4sensor_tcp_c.Prelude.{
  ℕ, suc, ◌<◌, ◌≡◌, ◌≢◌, refl, sym, ap, ◌∙◌, ◌⊎◌, inl, inr, ℤ, pos, ◌==ℤ◌, eq_of_==ℤ, ne_of_==ℤ,
  is_neg, Bool-cases, false, Option, [], ◌∷◌, arith,
}
use linux_veda_4sensor_tcp_c.Process.{
  fork, setsid, signal, chdir, umask, open_file, dup2, close, sighup, ignored, History, Kernel,
  after,
}
use linux_veda_4sensor_tcp_c.Process.Text.{bytes_of}
use linux_veda_4sensor_tcp_c.Process.Files.{
  Object, meaning, close_other, open_other, dup2_other, IsFresh, threads, signals,
}
use linux_veda_4sensor_tcp_c.Process.Ends.{Ends, weaken-Ends}
use linux_veda_4sensor_tcp_c.Server.Boot.Faults.{faults, socket_calls}
use linux_veda_4sensor_tcp_c.Server.Boot.Daemon.{null_path, redirect, detach, daemonize}

module _ (start : ℤ → Option Object) (kernel : Kernel) where
  -- From `h`: above the standard streams the descriptors are what they were, no thread is left, and
  -- the process does not end with its terminal; no socket was touched, and no needed call has failed.
  pub record Detached (h h' : History) : Type 0 where
    pub high : (n : ℕ) → 2 < n → meaning start h' (pos n) ≡ meaning start h (pos n)
    pub alone : threads h' ≡ []
    pub hangup : signals h' ≡ (sighup, ignored) ∷ signals h
    pub same_calls : socket_calls h' ≡ socket_calls h
    pub no_fault : faults h' ≡ faults h

  -- The descriptors behind the three calls of `dup2`.
  redirected :
      (null : ℤ) (n : ℕ) (h : History)
      → 2 < n
      → meaning start
          (after kernel
            (dup2 null (pos 2))
            (after kernel (dup2 null (pos 1)) (after kernel (dup2 null (pos 0)) h)))
          (pos n)
        ≡ meaning start h (pos n)
  redirected null n h high =
      dup2_other start kernel (pos n) _ null (pos 2) (ground arith)
      ∙ dup2_other start kernel (pos n) _ null (pos 1) (ground arith)
      ∙ dup2_other start kernel (pos n) h null (pos 0) (ground arith)

  module _ (fresh : IsFresh start kernel) where
    -- Behind the three calls of `dup2`, where `g` is what was before the file was opened.
    abbrev to_close : History → History
    to_close g =
        let null = kernel g (open_file null_path) in
        after kernel (dup2 null (pos 2)) (
          after kernel (dup2 null (pos 1))
            (after kernel (dup2 null (pos 0)) (after kernel (open_file null_path) g)))

    high_kept :
        (g : History) (n : ℕ)
        → let null = kernel g (open_file null_path) in
          is_neg null ≡ false
          → 2 < n
          → meaning start (after kernel (close null) (to_close g)) (pos n) ≡ meaning start g (pos n)
    unfolding meaning
    high_kept g n opened high =
        let null = kernel g (open_file null_path) in
        elim (Bool-cases (null ==ℤ pos n)) [
          | inl same ↦ rw same (
              sym (fresh.of_open g null_path opened)
              ∙ ap (meaning start g) (eq_of_==ℤ null (pos n) same))
          | inr other ↦
              close_other start kernel (pos n) (to_close g) null other
              ∙ redirected null n (after kernel (open_file null_path) g) high
              ∙ open_other start kernel (pos n) g null_path other
        ]

    -- From the redirection on.
    redirect-Ends :
        (g : History)
        → let null = kernel g (open_file null_path) in
          Ends
            (λ _ h'.
              ((n : ℕ) → 2 < n → meaning start h' (pos n) ≡ meaning start g (pos n))
              × (threads h' ≡ threads g)
              × (signals h' ≡ signals g)
              × (socket_calls h' ≡ socket_calls g)
              × (faults h' ≡ faults g))
            (λ _ _. ⊥)
            (redirect kernel null ((open_file null_path, null) ∷ g))
    unfolding meaning
    redirect-Ends g = elim (Bool-cases (is_neg (kernel g (open_file null_path)))) [
      | inl failed ↦ rw failed ((λ n high. rw failed refl), refl, refl, refl, refl)
      | inr opened ↦ rw opened ((λ n high. high_kept g n opened high), refl, refl, refl, refl)
    ]

    detach-Ends :
        (h : History)
        → kernel h fork ≡ pos 0
        → Ends
            (λ _ h'. Detached h h')
            (λ status h'. (status ≡ 1) × (faults h' ≡ suc (faults h)))
            (detach kernel (after kernel fork h))
    unfolding meaning
    detach-Ends h child =
        let to_chdir =
          after kernel (signal sighup ignored) (after kernel setsid (after kernel fork h)) in
        let to_open = after kernel (umask 0) (after kernel (chdir (bytes_of "/")) to_chdir) in
        elim (Bool-cases (is_neg (kernel to_chdir (chdir (bytes_of "/"))))) [
          | inl failed ↦ rw failed (refl, rw (failed, child) refl)
          | inr moved ↦ rw moved (
              weaken-Ends
                (λ _ h'.
                  ((n : ℕ) → 2 < n → meaning start h' (pos n) ≡ meaning start to_open (pos n))
                  × (threads h' ≡ threads to_open)
                  × (signals h' ≡ signals to_open)
                  × (socket_calls h' ≡ socket_calls to_open)
                  × (faults h' ≡ faults to_open))
                (λ _ h'. Detached h h') (λ _ _. ⊥)
                (λ status h'. (status ≡ 1) × (faults h' ≡ suc (faults h))) _ (redirect-Ends to_open)
                (λ _ h' k. record {
                  high = k.0;
                  alone = k.1;
                  hangup = k.2;
                  same_calls = k.3;
                  no_fault = k.4 ∙ rw (moved, child) refl;
                })
                (λ _ _ e. absurd e))
        ]

    -- `daemonize` returns in the child alone, detached; the parent exits with success, and a failure
    -- of `fork` or `chdir`, and nothing else, with failure.
    pub daemonize-Ends :
        (h : History)
        → Ends
            (λ _ h'. (kernel h fork ≡ pos 0) × Detached h h')
            (λ status h'.
              ((status ≡ 0)
                × (h' ≡ after kernel fork h)
                × (is_neg (kernel h fork) ≡ false)
                × (kernel h fork ≢ pos 0))
              ⊎ ((status ≡ 1) × (faults h' ≡ suc (faults h))))
            (daemonize kernel h)
    unfolding daemonize
    daemonize-Ends h = elim (Bool-cases (is_neg (kernel h fork))) [
      | inl failed ↦ rw failed (inr (refl, rw failed refl))
      | inr forked ↦ rw forked (elim (Bool-cases (kernel h fork ==ℤ pos 0)) [
        | inl child ↦ rw child (
            weaken-Ends (λ _ h'. Detached h h') _
              (λ status h'. (status ≡ 1) × (faults h' ≡ suc (faults h))) _ _
              (detach-Ends h (eq_of_==ℤ (kernel h fork) (pos 0) child))
              (λ _ h' d. (eq_of_==ℤ (kernel h fork) (pos 0) child, d)) (λ _ _ e. inr e))
        | inr parent ↦ rw parent (inl (refl, refl, refl, ne_of_==ℤ _ _ parent))
      ])
    ]
