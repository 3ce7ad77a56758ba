-- ===== src/Process/Files.antt =====
-- The descriptors of a process, read off its system calls.
use linux_veda_4sensor_tcp_c.Prelude.{
  ℕ, ◌≡◌, refl, arith, ℤ, pos, ◌==ℤ◌, is_neg, if◌then◌else◌, false, Option, none, some, List, [],
  ◌∷◌,
}
use linux_veda_4sensor_tcp_c.Process.{
  Call, socket, open_file, close, dup2, fork, pthread_create, signal, Worker, Signal, Handler,
  History, Kernel, after,
}

-- What a descriptor stands for.
pub data Object : Type 0 where
  network : Object
  file : (path : List ℕ) → Object

module _ (fd : ℤ) where
  -- A call, and what the descriptor stood for before it.
  abbrev pub meaning_after : Call → ℤ → (ℤ → Option Object) → Option Object
  meaning_after socket r m = if is_neg r then m fd else if r ==ℤ fd then some network else m fd
  meaning_after (open_file path) r m =
      if is_neg r then m fd else if r ==ℤ fd then some (file path) else m fd
  meaning_after (close a) r m = if a ==ℤ fd then none else m fd
  meaning_after (dup2 a b) r m = if is_neg r then m fd else if b ==ℤ fd then m a else m fd
  meaning_after _ r m = m fd

-- From the table `start` that the process was given.
unfoldable pub meaning : (ℤ → Option Object) → History → ℤ → Option Object
meaning start [] fd = start fd
meaning start ((c, r) ∷ h) fd = meaning_after fd c r (meaning start h)

-- A call leaves the other descriptors alone.
module _ (start : ℤ → Option Object) (kernel : Kernel) (fd : ℤ) (h : History) where
  pub close_other :
      (a : ℤ)
      → (a ==ℤ fd) ≡ false
      → meaning start (after kernel (close a) h) fd ≡ meaning start h fd
  unfolding meaning
  close_other a other = rw other refl

  pub open_other :
      (path : List ℕ)
      → (kernel h (open_file path) ==ℤ fd) ≡ false
      → meaning start (after kernel (open_file path) h) fd ≡ meaning start h fd
  unfolding meaning
  open_other path other = ground (arith, other)

  pub dup2_other :
      (a b : ℤ)
      → (b ==ℤ fd) ≡ false
      → meaning start (after kernel (dup2 a b) h) fd ≡ meaning start h fd
  unfolding meaning
  dup2_other a b other = ground (arith, other)

-- The kernel gives a new descriptor a number that is not in use.
pub record IsFresh (start : ℤ → Option Object) (kernel : Kernel) : Type 0 where
  pub of_socket :
      (h : History) → is_neg (kernel h socket) ≡ false → meaning start h (kernel h socket) ≡ none
  pub of_open :
      (h : History) (path : List ℕ)
      → is_neg (kernel h (open_file path)) ≡ false
      → meaning start h (kernel h (open_file path)) ≡ none

-- The threads of the process besides the first: after `fork` the child has none.
abbrev pub threads : History → List Worker
threads [] = []
threads ((pthread_create w, r) ∷ h) = if r ==ℤ pos 0 then w ∷ threads h else threads h
threads ((fork, r) ∷ h) = []
threads (e ∷ h) = threads h

-- The signals whose handling was set, newest first.
abbrev pub signals : History → List (Signal × Handler)
signals [] = []
signals ((signal s a, r) ∷ h) = (s, a) ∷ signals h
signals (e ∷ h) = signals h
