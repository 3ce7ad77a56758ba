-- ===== src/Server/Boot/Faults.antt =====
-- What the system calls of the start of server/main.c say of its failures, its socket and its
-- libraries.
use linux_veda_4sensor_tcp_c.Prelude.{
  ℕ, suc, ◌≡◌, ap, ◌∙◌, ◌⊎◌, inl, inr, ℤ, pos, ◌==ℤ◌, is_neg, if◌then◌else◌, Bool, false, not, List,
  [], ◌∷◌,
}
use linux_veda_4sensor_tcp_c.Process.{
  Call, socket, readlink, set_reuse_address, bind, listen, fork, chdir, dlopen, dlsym, dlerror,
  pthread_create, History,
}

-- A call whose failure the manual pages report by a negative answer, by a null pointer, or by the
-- number of an error, among those that the server cannot do without.
abbrev pub is_failed : Call → ℤ → Bool
is_failed socket r = is_neg r
is_failed readlink r = is_neg r
is_failed (set_reuse_address fd) r = is_neg r
is_failed (bind fd port) r = is_neg r
is_failed (listen fd backlog) r = is_neg r
is_failed fork r = is_neg r
is_failed (chdir path) r = is_neg r
is_failed (dlopen path) r = r ==ℤ pos 0
is_failed (pthread_create w) r = not (r ==ℤ pos 0)
is_failed _ r = false

-- How many of them failed. A lookup is a `dlsym` between two `dlerror`, of which the second has
-- nothing to tell when it succeeds.
abbrev pub faults : History → ℕ
faults [] = 0
faults ((dlerror, error) ∷ (dlsym handle name, symbol) ∷ (dlerror, r) ∷ h) =
    if error ==ℤ pos 0 then faults h else suc (faults h)
faults ((c, r) ∷ h) = if is_failed c r then suc (faults h) else faults h

-- What was done with sockets, newest first.
abbrev pub socket_calls : History → List Call
socket_calls [] = []
socket_calls ((socket, r) ∷ h) = socket ∷ socket_calls h
socket_calls ((set_reuse_address fd, r) ∷ h) = set_reuse_address fd ∷ socket_calls h
socket_calls ((bind fd port, r) ∷ h) = bind fd port ∷ socket_calls h
socket_calls ((listen fd backlog, r) ∷ h) = listen fd backlog ∷ socket_calls h
socket_calls (e ∷ h) = socket_calls h

-- The lookups that succeeded, newest first: the handle, the name and the address.
abbrev pub resolved : History → List (ℤ × List ℕ × ℤ)
resolved [] = []
resolved ((dlerror, error) ∷ (dlsym handle name, symbol) ∷ (dlerror, r) ∷ h) =
    if error ==ℤ pos 0 then (handle, name, symbol) ∷ resolved h else resolved h
resolved (e ∷ h) = resolved h

-- The process exits with failure because one of the calls since `h` has failed, or because of `C`.
abbrev pub Fails : Type 0 → History → ℕ → History → Type 0
Fails C h status h' = (status ≡ 1) × ((faults h' ≡ suc (faults h)) ⊎ C)

pub earlier :
    (C : Type 0) (h h₁ : History)
    → faults h₁ ≡ faults h
    → (status : ℕ) (h' : History) → Fails C h₁ status h'
    → Fails C h status h'
earlier C h h₁ q status h' (z, inl e) = (z, inl (e ∙ ap suc q))
earlier C h h₁ q status h' (z, inr c) = (z, inr c)
