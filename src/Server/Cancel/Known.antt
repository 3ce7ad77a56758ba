-- ===== src/Server/Cancel/Known.antt =====
-- What is known of the countdown thread of server/handler.c where it is within a round.
use linux_veda_4sensor_tcp_c.Prelude.{
  ℕ, zero, suc, ◌≡◌, refl, ap, ◌∙◌, ◌⊎◌, inl, inr, ◌==◌, Bool, true, false, not, ◌&&◌, ◌||◌, ℤ,
  List, [], ◌∷◌, ◌++◌, length, arith,
}
use linux_veda_4sensor_tcp_c.Protocol.{Message, act_off}
use linux_veda_4sensor_tcp_c.Server.State.{
  World, Env, BuzzerCmd, MelodyThread, set_board, log_event,
}
use linux_veda_4sensor_tcp_c.Server.Dispatch.{dispatch_buzzer}
use linux_veda_4sensor_tcp_c.Server.Clients.{client_copies}
use linux_veda_4sensor_tcp_c.Server.Melody.{melody_cleanup, melody_return}
use linux_veda_4sensor_tcp_c.Devices.Buzzer.{buzzer_stop_melody}
use linux_veda_4sensor_tcp_c.Server.Countdown.{show}
use linux_veda_4sensor_tcp_c.Server.Cancel.Pieces.{
  Piece, display, copy_all, send_first, close_first, take_control, release_control, tell_melody,
  join_thread, forget_melody, set_buzzer, post_buzzer, own_buzzer, write_log, nap, Midway, change,
  behind_first, await_melody, do_piece, do_pieces, is_point, is_join, in_broadcast, sent,
}

pub and_left : (a b : Bool) → (a && b) ≡ true → a ≡ true
and_left true b e = refl
and_left false b e = e

pub and_right : (a b : Bool) → (a && b) ≡ true → b ≡ true
and_right true b e = e
and_right false b e = cc

pub or_false : (a b : Bool) → a ≡ false → (a || b) ≡ true → b ≡ true
or_false true b h e = cc
or_false false b h e = e

-- What is known where the thread is: whether what it has done to `buzzer_state` and to the mailbox of
-- the buzzer needs no undoing, whether it owns the buzzer, how many copies are open, and whether the
-- lock is held.
pub record Known : Type 0 where
  pub state_calm : Bool
  pub box_calm : Bool
  pub owning : Bool
  pub opened : ℕ
  pub held : Bool

abbrev pub positive : ℕ → Bool
positive zero = false
positive (suc n) = true

abbrev pub pred : ℕ → ℕ
pred zero = 0
pred (suc n) = n

abbrev pub after : ℕ → Piece → Known → Known
after n (display z) k = k
after n copy_all k = record k { opened = n }
after n (send_first m) k = k
after n close_first k = record k { opened = pred k.opened }
after n take_control k = record k { held = true }
after n release_control k = record k { held = false }
after n tell_melody k = k
after n join_thread k = k
after n forget_melody k = k
after n (set_buzzer b) k = record k { state_calm = b == 0 }
after n (post_buzzer a) k = record k { box_calm = a == act_off }
after n (own_buzzer b) k = record k { owning = not (b == 0) }
after n (write_log e) k = k
after n nap k = k

abbrev pub alike : Bool → Bool → Bool
alike true b = b
alike false b = not b

-- Here a cancellation leaves nothing that should not be, but for the lock at the join and the copies
-- in a broadcast.
abbrev pub fine : Piece → Known → Bool
fine p k =
    not (is_point p)
    || (((k.state_calm && k.box_calm) || k.owning)
        && (alike (in_broadcast p) (positive k.opened) && alike (is_join p) k.held))

abbrev pub covered : ℕ → List Piece → Known → Bool
covered n [] k = true
covered n (p ∷ ps) k = fine p k && covered n ps (after n p k)

abbrev pub off : BuzzerCmd
off = record { action = act_off; pending = 1 }

pub record Sound (w : World) (f : Midway) (k : Known) : Type 0 where
  pub state :
      k.state_calm ≡ true
      → (f.world.state.buzzer_state ≡ 0) ⊎ (f.world.state.buzzer_state ≡ w.state.buzzer_state)
  pub box : k.box_calm ≡ true → (f.world.buzzer_cmd ≡ off) ⊎ (f.world.buzzer_cmd ≡ w.buzzer_cmd)
  pub owned : k.owning ≡ true → (f.owned == 0) ≡ false
  pub copies : length f.copies ≡ k.opened
  pub held : f.controls ≡ k.held
  pub table : f.world.state.client_fds ≡ w.state.client_fds

-- A change that only ever switches the buzzer's flag off.
abbrev Soft : World → World → Type 0
Soft v u =
    ((u.state.buzzer_state ≡ 0) ⊎ (u.state.buzzer_state ≡ v.state.buzzer_state))
    × (u.buzzer_cmd ≡ v.buzzer_cmd)
    × (u.state.client_fds ≡ v.state.client_fds)

pub softly : {a b c : ℕ} → (b ≡ 0) ⊎ (b ≡ a) → (a ≡ 0) ⊎ (a ≡ c) → (b ≡ 0) ⊎ (b ≡ c)
softly (inl e) s = inl e
softly (inr e) (inl e') = inl (e ∙ e')
softly (inr e) (inr e') = inr (e ∙ e')

change-Sound :
    (g : World → World) (w : World) (f : Midway) (k : Known)
    → Soft f.world (g f.world)
    → Sound w f k
    → Sound w (change g f) k
change-Sound g w f k (b, c, t) s = record {
  state = λ e. softly b (s.state e);
  box = λ e. elim (s.box e) [ inl p ↦ inl (c ∙ p) | inr p ↦ inr (c ∙ p) ];
  owned = s.owned;
  copies = s.copies;
  held = s.held;
  table = t ∙ s.table;
}

await_melody-Soft : (env : Env) (w : World) → Soft w (await_melody env w)
unfolding melody_cleanup melody_return buzzer_stop_melody
await_melody-Soft env w = ground arith

sent-Soft : (m : Message) (cs : List ℤ) (w : World) → Soft w (sent m cs w)
sent-Soft m [] w = (inr refl, refl, refl)
sent-Soft m (c ∷ cs) w = (inr refl, refl, refl)

length-behind_first : (cs : List ℤ) → length (behind_first cs) ≡ pred (length cs)
length-behind_first [] = refl
length-behind_first (c ∷ cs) = refl

abbrev forgotten : World → World
forgotten w = record w {
  melody = record { running = 0; joinable = 0; thread = MelodyThread.absent };
}

piece-Sound :
    (env : Env) (w : World) (p : Piece) (f : Midway) (k : Known)
    → Sound w f k
    → Sound w (do_piece env p f) (after (length (client_copies env.dup w.state.client_fds)) p k)
unfolding do_piece dispatch_buzzer buzzer_stop_melody
piece-Sound env w (display z) f k s = change-Sound (show z) w f k (inr refl, refl, refl) s
piece-Sound env w copy_all f k s = record {
  state = s.state;
  box = s.box;
  owned = s.owned;
  copies = ap (λ fds. length (client_copies env.dup fds)) s.table;
  held = s.held;
  table = s.table;
}
piece-Sound env w (send_first m) f k s =
    change-Sound (sent m f.copies) w f k (sent-Soft m f.copies f.world) s
piece-Sound env w close_first f k s = record {
  state = s.state;
  box = s.box;
  owned = s.owned;
  copies = length-behind_first f.copies ∙ ap pred s.copies;
  held = s.held;
  table = s.table;
}
piece-Sound env w take_control f k s = record {
  state = s.state;
  box = s.box;
  owned = s.owned;
  copies = s.copies;
  held = refl;
  table = s.table;
}
piece-Sound env w release_control f k s = record {
  state = s.state;
  box = s.box;
  owned = s.owned;
  copies = s.copies;
  held = refl;
  table = s.table;
}
piece-Sound env w tell_melody f k s =
    change-Sound (λ v. set_board (buzzer_stop_melody v.board) v) w f k (inr refl, refl, refl) s
piece-Sound env w join_thread f k s =
    change-Sound (await_melody env) w f k (await_melody-Soft env f.world) s
piece-Sound env w forget_melody f k s = change-Sound forgotten w f k (inr refl, refl, refl) s
piece-Sound env w (set_buzzer b) f k s = record {
  state = λ e. inl (ground (arith, e));
  box = s.box;
  owned = s.owned;
  copies = s.copies;
  held = s.held;
  table = s.table;
}
piece-Sound env w (post_buzzer a) f k s = record {
  state = s.state;
  box = λ e. inl (ap (λ (n : ℕ). record { action = n; pending = 1 }) (ground (arith, e)));
  owned = s.owned;
  copies = s.copies;
  held = s.held;
  table = s.table;
}
piece-Sound env w (own_buzzer b) f k s = record {
  state = s.state;
  box = s.box;
  owned = λ e. ground (arith, e);
  copies = s.copies;
  held = s.held;
  table = s.table;
}
piece-Sound env w (write_log e) f k s = change-Sound (log_event e) w f k (inr refl, refl, refl) s
piece-Sound env w nap f k s = s

-- Up to a point of the pieces.
pub pieces-Sound :
    (env : Env) (w : World) (done : List Piece) (p : Piece) (rest : List Piece) (f : Midway)
    (k : Known)
    → covered (length (client_copies env.dup w.state.client_fds)) (done ++ (p ∷ rest)) k ≡ true
    → Sound w f k
    → (l : Known) × (fine p l ≡ true) × Sound w (do_pieces env done f) l
unfolding do_pieces
pieces-Sound env w [] p rest f k c s = (k, and_left _ _ c, s)
pieces-Sound env w (q ∷ done) p rest f k c s =
    pieces-Sound env w done p rest (do_piece env q f) _ (and_right _ _ c)
      (piece-Sound env w q f k s)
