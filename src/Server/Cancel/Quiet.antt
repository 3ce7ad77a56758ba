-- ===== src/Server/Cancel/Quiet.antt =====
-- What a countdown thread of server/handler.c that is cancelled, wherever it is, leaves behind.
use linux_veda_4sensor_tcp_c.Prelude.{
  ℕ, ◌≡◌, refl, sym, ap, ◌∙◌, ◌⊎◌, inl, inr, ◌==◌, Bool, true, false, not, ◌&&◌, ◌||◌, Bool-cases,
  negsuc, List, ◌∷◌, ◌++◌, length, arith,
}
use linux_veda_4sensor_tcp_c.Server.State.{World, Env, absent}
use linux_veda_4sensor_tcp_c.Server.Dispatch.{dispatch_buzzer}
use linux_veda_4sensor_tcp_c.Server.Clients.{client_copies}
use linux_veda_4sensor_tcp_c.Server.Countdown.{seg_cleanup}
use linux_veda_4sensor_tcp_c.Server.Cancel.Pieces.{
  Piece, Midway, do_pieces, is_point, is_join, in_broadcast, before,
}
use linux_veda_4sensor_tcp_c.Server.Cancel.Known.{
  and_left, and_right, or_false, Known, positive, alike, fine, off, covered, Sound, softly,
  pieces-Sound,
}
use linux_veda_4sensor_tcp_c.Server.Cancel.Covered.{to_the_end, at_start, to_the_end-covered}

-- What is left when the countdown thread is cancelled at the point `p`, where it is as `f` says, and
-- `seg_cleanup` has run; `w` is the world in which the round began.
pub record LeftQuiet (w : World) (p : Piece) (f : Midway) : Type 0 where
  display : (seg_cleanup f.owned f.world).state.segment_value ≡ negsuc 0
  gone : (seg_cleanup f.owned f.world).segment.thread ≡ absent
  flag :
      ((seg_cleanup f.owned f.world).state.buzzer_state ≡ 0)
      ⊎ ((seg_cleanup f.owned f.world).state.buzzer_state ≡ w.state.buzzer_state)
  mailbox :
      ((seg_cleanup f.owned f.world).buzzer_cmd ≡ off)
      ⊎ ((seg_cleanup f.owned f.world).buzzer_cmd ≡ w.buzzer_cmd)
  table : (seg_cleanup f.owned f.world).state.client_fds ≡ w.state.client_fds
  lock : f.controls ≡ is_join p
  copies : positive (length f.copies) ≡ in_broadcast p

eq_of_alike : (a b : Bool) → alike a b ≡ true → b ≡ a
eq_of_alike true b e = e
eq_of_alike false true e = cc
eq_of_alike false false e = refl

Ready : Known → Type 0
Ready k = ((k.state_calm ≡ true) × (k.box_calm ≡ true)) ⊎ (k.owning ≡ true)

enough_of : (k : Known) → ((k.state_calm && k.box_calm) || k.owning) ≡ true → Ready k
unfolding Ready
enough_of k e = ground arith

cleanup_always :
    (o : ℕ) (w : World)
    → ((seg_cleanup o w).state.segment_value ≡ negsuc 0)
      × ((seg_cleanup o w).segment.thread ≡ absent)
      × ((seg_cleanup o w).state.client_fds ≡ w.state.client_fds)
unfolding seg_cleanup dispatch_buzzer
cleanup_always o w = elim (Bool-cases (o == 0)) [
  | inl e ↦ rw e (refl, refl, refl)
  | inr e ↦ rw e (refl, refl, refl)
]

cleanup_owned :
    (o : ℕ) (w : World)
    → (o == 0) ≡ false
    → ((seg_cleanup o w).state.buzzer_state ≡ 0) × ((seg_cleanup o w).buzzer_cmd ≡ off)
unfolding seg_cleanup dispatch_buzzer
cleanup_owned o w e = rw e (refl, refl)

cleanup_unowned :
    (o : ℕ) (w : World)
    → (o == 0) ≡ true
    → ((seg_cleanup o w).state.buzzer_state ≡ w.state.buzzer_state)
      × ((seg_cleanup o w).buzzer_cmd ≡ w.buzzer_cmd)
unfolding seg_cleanup dispatch_buzzer
cleanup_unowned o w e = rw e (refl, refl)

-- What the cleanup does not undo needs no undoing.
quiet_of :
    (w : World) (p : Piece) (f : Midway) (k : Known)
    → Sound w f k
    → Ready k
    → k.held ≡ is_join p
    → positive k.opened ≡ in_broadcast p
    → LeftQuiet w p f
unfolding Ready
quiet_of w p f k s r h c =
    let (shown, gone, table) = cleanup_always f.owned f.world in
    let (flag, mailbox) = buzzer_left in
    record {
      display = shown;
      gone = gone;
      flag = flag;
      mailbox = mailbox;
      table = table ∙ s.table;
      lock = s.held ∙ h;
      copies = ap positive s.copies ∙ c;
    }
  where
    buzzer_left :
        (((seg_cleanup f.owned f.world).state.buzzer_state ≡ 0)
          ⊎ ((seg_cleanup f.owned f.world).state.buzzer_state ≡ w.state.buzzer_state))
        × (((seg_cleanup f.owned f.world).buzzer_cmd ≡ off)
            ⊎ ((seg_cleanup f.owned f.world).buzzer_cmd ≡ w.buzzer_cmd))
    buzzer_left = elim (Bool-cases (f.owned == 0)) [
      | inl e ↦
          let (same, cmd) = cleanup_unowned f.owned f.world e in
          elim r [
            | inl (a, b) ↦ (
              softly (inr same) (s.state a),
              elim (s.box b) [ inl q ↦ inl (cmd ∙ q) | inr q ↦ inr (cmd ∙ q) ],
            )
            | inr o ↦
                let owned = s.owned o in absurd (let wrong : false ≡ true = sym owned ∙ e in cc)
          ]
      | inr e ↦ let (flag, cmd) = cleanup_owned f.owned f.world e in (inl flag, inl cmd)
    ]

fine_parts :
    (p : Piece) (k : Known)
    → is_point p ≡ true
    → fine p k ≡ true
    → Ready k × (k.held ≡ is_join p) × (positive k.opened ≡ in_broadcast p)
fine_parts p k point e =
    let e' : (((k.state_calm && k.box_calm) || k.owning)
          && (alike (in_broadcast p) (positive k.opened) && alike (is_join p) k.held))
        ≡ true =
      or_false _ _ (ap not point) e in
    let rest = and_right _ _ e' in
    (
      enough_of k (and_left _ _ e'),
      eq_of_alike (is_join p) k.held (and_right _ _ rest),
      eq_of_alike (in_broadcast p) (positive k.opened) (and_left _ _ rest),
    )

start-Sound : (w : World) → Sound w (before w) at_start
start-Sound w = record {
  state = λ e. inr refl;
  box = λ e. inr refl;
  owned = λ e. cc;
  copies = refl;
  held = refl;
  table = refl;
}

-- Wherever the countdown thread is cancelled, in a round for any number or in what follows the round
-- for 0: when it has cleaned up, the display's value is -1 and the thread is gone, the buzzer's flag
-- is 0 or as before the round, and the buzzer's mailbox holds the command to be off or is as it was
-- before; the client table is as it was. The control lock of the melody stays locked exactly if the
-- thread was in `pthread_join`, and copies of client descriptors stay open exactly if it was in a
-- broadcast.
pub cancelled-LeftQuiet :
    (env : Env) (w : World) (count : ℕ) (done : List Piece) (p : Piece) (rest : List Piece)
    → to_the_end (client_copies env.dup w.state.client_fds) w.melody.joinable count
      ≡ done ++ (p ∷ rest)
    → is_point p ≡ true
    → LeftQuiet w p (do_pieces env done (before w))
cancelled-LeftQuiet env w count done p rest e point =
    let cs = client_copies env.dup w.state.client_fds in
    let whole = to_the_end-covered cs w.melody.joinable count in
    let split = sym (ap (λ ps. covered (length cs) ps at_start) e) ∙ whole in
    let (k, ok, s) = pieces-Sound env w done p rest (before w) at_start split (start-Sound w) in
    let (r, h, c) = fine_parts p k point ok in
    quiet_of w p (do_pieces env done (before w)) k s r h c
