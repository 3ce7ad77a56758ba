-- ===== src/Server/Boot/LibraryLaws.antt =====
-- The function pointers that load_libraries of server/main.c assigns.
use linux_veda_4sensor_tcp_c.Prelude.{
  ℕ, ◌≡◌, refl, sym, ap, ◌∙◌, inl, inr, ℤ, pos, ◌==ℤ◌, Bool-cases, false, Option, none, some, List,
  [], ◌∷◌, All,
}
use linux_veda_4sensor_tcp_c.Process.{dlopen, dlsym, dlerror, History, Kernel, after, ◌>>=◌}
use linux_veda_4sensor_tcp_c.Process.Text.{bytes_of}
use linux_veda_4sensor_tcp_c.Process.Files.{Object, meaning}
use linux_veda_4sensor_tcp_c.Process.Ends.{Ends, bind-Ends, weaken-Ends}
use linux_veda_4sensor_tcp_c.Server.Text.{library_path}
use linux_veda_4sensor_tcp_c.Server.Boot.Faults.{resolved, Fails, earlier}
use linux_veda_4sensor_tcp_c.Server.Boot.Libraries.{
  Target, open_library, load_library, load_symbol, Pointers, assign_symbols, led_symbols,
  buzzer_symbols, sensor_symbols, segment_symbols, assign_library, load_libraries,
}
use linux_veda_4sensor_tcp_c.Server.Boot.Symbols.{
  all_targets, targets, lookups, IsNamed, IsOwn, onto, TooLong,
}
use linux_veda_4sensor_tcp_c.Server.Boot.FileLaws.{Same, Same-trans}

module _ (start : ℤ → Option Object) (kernel : Kernel) where
  -- The pointers `ps` are all that was resolved, each in the variable of its name.
  pub record Assigned (expected : List Target) (h : History) (ps : Pointers) (h' : History)
      : Type 0 where
    pub same : Same start kernel h h'
    pub answers : lookups ps ≡ resolved h'
    pub in_order : targets ps ≡ expected
    pub own : All IsOwn ps

module _ (start : ℤ → Option Object) (kernel : Kernel) (C : Type 0) where
  -- A handle that is not null, and no pointer yet.
  abbrev Opened : History → ℤ → History → Type 0
  Opened h handle h' =
      ((handle ==ℤ pos 0) ≡ false) × Same start kernel h h' × (resolved h' ≡ resolved h)

  open_library-Ends :
      (name : List ℕ) (path : Option (List ℕ)) (h : History)
      → (path ≡ none → C)
      → Ends (Opened h) (Fails C h) (open_library kernel name path h)
  unfolding meaning
  open_library-Ends name none h long = (refl, inr (long refl))
  open_library-Ends name (some path) h long = elim (Bool-cases (kernel h (dlopen path) ==ℤ pos 0)) [
    | inl null ↦ rw null (refl, inl (rw null refl))
    | inr opened ↦ rw opened (
      opened,
      record {
        table = λ fd. refl;
        same_threads = refl;
        same_signals = refl;
        same_calls = refl;
        no_fault = rw opened refl;
      },
      refl,
    )
  ]

  -- One pointer more.
  abbrev Found : ℤ → List ℕ → History → ℤ → History → Type 0
  Found handle name h symbol h' =
      Same start kernel h h' × (resolved h' ≡ (handle, name, symbol) ∷ resolved h)

  load_symbol-Ends :
      (handle : ℤ) (name : List ℕ) (h : History)
      → Ends (Found handle name h) (Fails C h) (load_symbol kernel handle name h)
  unfolding load_symbol meaning
  load_symbol-Ends handle name h =
      let h₂ = after kernel (dlsym handle name) (after kernel dlerror h) in
      elim (Bool-cases (kernel h₂ dlerror ==ℤ pos 0)) [
        | inl found ↦ rw found (
          record {
            table = λ fd. refl;
            same_threads = refl;
            same_signals = refl;
            same_calls = refl;
            no_fault = rw found refl;
          },
          rw found refl,
        )
        | inr error ↦ rw error (refl, inl (rw error refl))
      ]

  assign_symbols-Ends :
      (handle : ℤ) (ns : List (Target × List ℕ)) (acc : Pointers) (h : History)
      → (handle ==ℤ pos 0) ≡ false
      → lookups acc ≡ resolved h
      → All IsOwn acc
      → All IsNamed ns
      → Ends
          (Assigned start kernel (onto ns (targets acc)) h)
          (Fails C h)
          (assign_symbols kernel handle ns acc h)
  unfolding assign_symbols meaning
  assign_symbols-Ends handle [] acc h o e a named = record {
    same = record {
      table = λ fd. refl;
      same_threads = refl;
      same_signals = refl;
      same_calls = refl;
      no_fault = refl;
    };
    answers = e;
    in_order = refl;
    own = a;
  }
  assign_symbols-Ends handle ((t, n) ∷ ns) acc h o e a named =
      bind-Ends (Found handle n h) (Assigned start kernel (onto ((t, n) ∷ ns) (targets acc)) h)
        (Fails C h) _ (λ symbol. assign_symbols kernel handle ns ((t, handle, n, symbol) ∷ acc))
        (load_symbol-Ends handle n h)
        (λ symbol h₁ k.
          let (s₁, r) = k in
          weaken-Ends (Assigned start kernel (onto ns (t ∷ targets acc)) h₁)
            (Assigned start kernel (onto ((t, n) ∷ ns) (targets acc)) h) (Fails C h₁) (Fails C h) _
            (assign_symbols-Ends handle ns ((t, handle, n, symbol) ∷ acc) h₁ o
              (ap (λ ps. (handle, n, symbol) ∷ ps) e ∙ sym r) ((named.0, o), a) named.1)
            (λ ps h' s. record {
              same = Same-trans start kernel h h₁ h' s₁ s.same;
              answers = s.answers;
              in_order = s.in_order;
              own = s.own;
            })
            (earlier C h h₁ s₁.no_fault))

  assign_library-Ends :
      (base name : List ℕ) (ns : List (Target × List ℕ)) (acc : Pointers) (h : History)
      → lookups acc ≡ resolved h
      → All IsOwn acc
      → All IsNamed ns
      → (library_path base name ≡ none → C)
      → Ends
          (Assigned start kernel (onto ns (targets acc)) h)
          (Fails C h)
          (assign_library kernel base name ns acc h)
  unfolding load_library
  assign_library-Ends base name ns acc h e a named long =
      bind-Ends (Opened h) (Assigned start kernel (onto ns (targets acc)) h) (Fails C h) _
        (λ handle. assign_symbols kernel handle ns acc)
        (open_library-Ends name (library_path base name) h long)
        (λ handle h₁ k.
          let (o, s₁, r) = k in
          weaken-Ends (Assigned start kernel (onto ns (targets acc)) h₁)
            (Assigned start kernel (onto ns (targets acc)) h) (Fails C h₁) (Fails C h) _
            (assign_symbols-Ends handle ns acc h₁ o (e ∙ sym r) a named)
            (λ ps h' s. record {
              same = Same-trans start kernel h h₁ h' s₁ s.same;
              answers = s.answers;
              in_order = s.in_order;
              own = s.own;
            })
            (earlier C h h₁ s₁.no_fault))

  -- Another library behind what was assigned from `h` on.
  next_library :
      (base name : List ℕ) (expected : List Target) (ns : List (Target × List ℕ)) (h : History)
      (ps : Pointers) (h₁ : History)
      → Assigned start kernel expected h ps h₁
      → All IsNamed ns
      → (library_path base name ≡ none → C)
      → Ends
          (Assigned start kernel (onto ns expected) h)
          (Fails C h)
          (assign_library kernel base name ns ps h₁)
  next_library base name expected ns h ps h₁ s named long =
      weaken-Ends (Assigned start kernel (onto ns (targets ps)) h₁)
        (Assigned start kernel (onto ns expected) h) (Fails C h₁) (Fails C h) _
        (assign_library-Ends base name ns ps h₁ s.answers s.own named long)
        (λ qs h' t. record {
          same = Same-trans start kernel h h₁ h' s.same t.same;
          answers = t.answers;
          in_order = t.in_order ∙ ap (onto ns) s.in_order;
          own = t.own;
        })
        (earlier C h h₁ s.same.no_fault)

  -- All four libraries, where a path that is too long gives `C`.
  pub all_libraries-Ends :
      (base : List ℕ) (h : History)
      → resolved h ≡ []
      → (TooLong base → C)
      → Ends (Assigned start kernel all_targets h) (Fails C h) (load_libraries kernel base h)
  unfolding load_libraries
  all_libraries-Ends base h none_yet long =
      let led = onto led_symbols [] in
      let buzzer = onto buzzer_symbols led in
      let sensor = onto sensor_symbols buzzer in
      let from_segment = assign_library kernel base (bytes_of "segment") segment_symbols in
      let from_cds = λ (p : Pointers).
        assign_library kernel base (bytes_of "cds") sensor_symbols p >>= from_segment in
      let from_buzzer = λ (p : Pointers).
        assign_library kernel base (bytes_of "buzzer") buzzer_symbols p >>= from_cds in
      bind-Ends (Assigned start kernel led h) (Assigned start kernel all_targets h) (Fails C h) _
        from_buzzer
        (assign_library-Ends base (bytes_of "led") led_symbols [] h (sym none_yet) tt
          (refl, (refl, (refl, (refl, (refl, tt))))) (λ e. long (inl e)))
        (λ p₁ h₁ s₁.
          bind-Ends (Assigned start kernel buzzer h) (Assigned start kernel all_targets h)
            (Fails C h) _ from_cds
            (next_library base (bytes_of "buzzer") led buzzer_symbols h p₁ h₁ s₁
              (refl, (refl, (refl, (refl, (refl, (refl, tt)))))) (λ e. long (inr (inl e))))
            (λ p₂ h₂ s₂.
              bind-Ends (Assigned start kernel sensor h) (Assigned start kernel all_targets h)
                (Fails C h) _ from_segment
                (next_library base (bytes_of "cds") buzzer sensor_symbols h p₂ h₂ s₂
                  (refl, (refl, (refl, tt))) (λ e. long (inr (inr (inl e)))))
                (λ p₃ h₃ s₃.
                  next_library base (bytes_of "segment") sensor segment_symbols h p₃ h₃ s₃
                    (refl, (refl, (refl, tt))) (λ e. long (inr (inr (inr e)))))))

-- When `load_libraries` returns, each of the 17 function pointers holds what `dlsym` answered for
-- the function of its own name, on a handle that is not null; no other lookup was made, no
-- `dlopen` was null and `dlerror` had nothing to tell behind any `dlsym`; and the descriptors,
-- threads and signals are what they were. It exits, with failure, only if one of these calls has
-- failed or the path of a library does not fit its buffer. No symbol was looked up before.
pub load_libraries-Ends :
    (start : ℤ → Option Object) (kernel : Kernel) (base : List ℕ) (h : History)
    → resolved h ≡ []
    → Ends
        (Assigned start kernel all_targets h)
        (Fails (TooLong base) h)
        (load_libraries kernel base h)
load_libraries-Ends start kernel base h none_yet =
    all_libraries-Ends start kernel (TooLong base) base h none_yet (λ long. long)
