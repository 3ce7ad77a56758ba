-- ===== src/Server/Boot/StreamLaws.antt =====
-- The standard streams behind daemonize of server/daemon.c.
use linux_veda_4sensor_tcp_c.Prelude.{
  ℕ, zero, suc, ◌<◌, ◌≡◌, refl, ◌⊎◌, inl, inr, ℤ, pos, ◌==ℤ◌, ==ℤ_refl, is_neg, Bool-cases, false,
  Option, none, some, ◌∷◌, arith,
}
use linux_veda_4sensor_tcp_c.Process.{
  fork, setsid, signal, chdir, umask, open_file, dup2, close, sighup, ignored, History, Kernel,
  after,
}
use linux_veda_4sensor_tcp_c.Process.Text.{bytes_of}
use linux_veda_4sensor_tcp_c.Process.Files.{Object, file, meaning}
use linux_veda_4sensor_tcp_c.Process.Ends.{Ends, weaken-Ends}
use linux_veda_4sensor_tcp_c.Server.Boot.Daemon.{null_path, redirect, detach, daemonize}

module _ (start : ℤ → Option Object) (kernel : Kernel) where
  abbrev Null : ℤ → History → Type 0
  Null fd h = meaning start h fd ≡ some (file null_path)

  module _ (null : ℤ) (h : History) (b : ℤ) where
    copied :
        is_neg (kernel h (dup2 null b)) ≡ false
        → Null null h
        → Null b (after kernel (dup2 null b) h)
    unfolding meaning
    copied done e = rw (done, ==ℤ_refl b) e

    copy_kept : (fd : ℤ) → Null null h → Null fd h → Null fd (after kernel (dup2 null b) h)
    unfolding meaning
    copy_kept fd e f = elim (Bool-cases (is_neg (kernel h (dup2 null b)))) [
      | inl failed ↦ rw failed f
      | inr done ↦
          rw done (elim (Bool-cases (b ==ℤ fd)) [ inl same ↦ rw same e | inr other ↦ rw other f ])
    ]

  -- A standard stream that is /dev/null, or closed.
  abbrev pub IsSilent : ℕ → History → Type 0
  IsSilent m h = Null (pos m) h ⊎ (meaning start h (pos m) ≡ none)

  closed-IsSilent :
      (null : ℤ) (m : ℕ) (h : History) → Null (pos m) h → IsSilent m (after kernel (close null) h)
  unfolding meaning
  closed-IsSilent null m h e = elim (Bool-cases (null ==ℤ pos m)) [
    | inl same ↦ inr (rw same refl)
    | inr other ↦ inl (rw other e)
  ]

  module _ (opens : (g : History) → is_neg (kernel g (open_file null_path)) ≡ false)
      (copies : (g : History) (a b : ℤ) → is_neg (kernel g (dup2 a b)) ≡ false) where
    all-Null :
        (m : ℕ) (null : ℤ) (h : History)
        → m < 3
        → Null null h
        → Null (pos m) (
            after kernel
              (dup2 null (pos 2))
              (after kernel (dup2 null (pos 1)) (after kernel (dup2 null (pos 0)) h)))
    all-Null m null h low e =
        let h₁ = after kernel (dup2 null (pos 0)) h in
        let h₂ = after kernel (dup2 null (pos 1)) h₁ in
        let e₁ = copy_kept null h (pos 0) null e e in
        let e₂ = copy_kept null h₁ (pos 1) null e₁ e₁ in
        go (λ k. Null (pos k) (after kernel (dup2 null (pos 2)) h₂)) m low
          (copy_kept null h₂ (pos 2) (pos 0) e₂ (
            copy_kept null h₁ (pos 1) (pos 0) e₁ (copied null h (pos 0) (copies h null (pos 0)) e)))
          (copy_kept null h₂ (pos 2) (pos 1) e₂
            (copied null h₁ (pos 1) (copies h₁ null (pos 1)) e₁))
          (copied null h₂ (pos 2) (copies h₂ null (pos 2)) e₂)
      where
        go : (P : ℕ → Type 0) (k : ℕ) → k < 3 → P 0 → P 1 → P 2 → P k
        go P zero l a b c = a
        go P (suc zero) l a b c = b
        go P (suc (suc zero)) l a b c = c
        go P (suc (suc (suc k))) l a b c = absurd (omega (l, arith))

    redirect-IsSilent :
        (m : ℕ) (g : History)
        → m < 3
        → let null = kernel g (open_file null_path) in
          Ends (λ _. IsSilent m) (λ _ _. ⊥) (redirect kernel null ((open_file null_path, null) ∷ g))
    unfolding meaning
    redirect-IsSilent m g low =
        let null = kernel g (open_file null_path) in
        let h₀ = after kernel (open_file null_path) g in
        let h₃ =
          after kernel (dup2 null (pos 2))
            (after kernel (dup2 null (pos 1)) (after kernel (dup2 null (pos 0)) h₀)) in
        rw (opens g)
          (closed-IsSilent null m h₃ (all-Null m null h₀ low (rw (opens g, ==ℤ_refl null) refl)))

    detach-IsSilent :
        (m : ℕ) (h : History)
        → m < 3
        → Ends (λ _. IsSilent m) (λ _ _. Unit) (detach kernel (after kernel fork h))
    detach-IsSilent m h low =
        let to_chdir =
          after kernel (signal sighup ignored) (after kernel setsid (after kernel fork h)) in
        let to_open = after kernel (umask 0) (after kernel (chdir (bytes_of "/")) to_chdir) in
        elim (Bool-cases (is_neg (kernel to_chdir (chdir (bytes_of "/"))))) [
          | inl failed ↦ rw failed tt
          | inr moved ↦ rw moved (
              weaken-Ends (λ _. IsSilent m) (λ _. IsSilent m) (λ _ _. ⊥) (λ _ _. Unit) _
                (redirect-IsSilent m to_open low) (λ _ _ s. s) (λ _ _ e. absurd e))
        ]

    -- If /dev/null can be opened and `dup2` succeeds, then behind `daemonize` each of the descriptors
    -- 0, 1 and 2 stands for /dev/null or for nothing, whatever it stood for before.
    pub daemonize-IsSilent :
        (m : ℕ) (h : History) → m < 3 → Ends (λ _. IsSilent m) (λ _ _. Unit) (daemonize kernel h)
    unfolding daemonize
    daemonize-IsSilent m h low = elim (Bool-cases (is_neg (kernel h fork))) [
      | inl failed ↦ rw failed tt
      | inr forked ↦ rw forked (elim (Bool-cases (kernel h fork ==ℤ pos 0)) [
        | inl child ↦ rw child (detach-IsSilent m h low)
        | inr parent ↦ rw parent tt
      ])
    ]
