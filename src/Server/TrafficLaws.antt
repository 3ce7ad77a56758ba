-- ===== src/Server/TrafficLaws.antt =====
-- What the threads of server/ that send on one socket leave on it.
use linux_veda_4sensor_tcp_c.Prelude.{
  ℕ, zero, suc, ◌≡◌, refl, sym, ap, ◌∙◌, subst, ◌⊎◌, inl, inr, some, List, [], ◌∷◌, ◌++◌,
  append_assoc, append-nil, All, length, take, drop, take-length, drop-length, get_elem?, put,
  arith,
}
use linux_veda_4sensor_tcp_c.Protocol.{Message}
use linux_veda_4sensor_tcp_c.Protocol.Codec.{encode, length-encode}
use linux_veda_4sensor_tcp_c.Server.SessionLaws.{stream}
use linux_veda_4sensor_tcp_c.ProtocolIo.Contract.{Whole}
use linux_veda_4sensor_tcp_c.Server.Traffic.{
  Sender, Silent, Talk, over, begins, sends, senders, Merged, nothing, first,
}

-- A thread that is not inside a message has these messages to send.
Has : Sender → List Message → Type 0
Has s ms =
    ((s.sending ≡ []) × (s.queue ≡ ms))
    ⊎ ((m : Message) × (s.sending ≡ encode m) × (ms ≡ m ∷ s.queue))

abbrev AllHave : List Sender → List (List Message) → Type 0
AllHave [] [] = Unit
AllHave [] (ms ∷ mss) = ⊥
AllHave (s ∷ ss) [] = ⊥
AllHave (s ∷ ss) (ms ∷ mss) = Has s ms × AllHave ss mss

senders-Have : (mss : List (List Message)) → AllHave (senders mss) mss
unfolding Has
senders-Have [] = tt
senders-Have (ms ∷ mss) = (inl (refl, refl), senders-Have mss)

-- The messages of one thread.
have_at :
    (i : ℕ) (s : Sender) (ss : List Sender) (mss : List (List Message))
    → AllHave ss mss
    → get_elem? ss i ≡ some s
    → (ms : List Message) × (get_elem? mss i ≡ some ms) × Has s ms
have_at i s [] [] h e = cc
have_at i s [] (ms ∷ mss) h e = absurd h
have_at i s (t ∷ ss) [] h e = absurd h
have_at zero s (t ∷ ss) (ms ∷ mss) (h, hs) e =
    let same : t ≡ s = cc in (ms, refl, subst (λ v. Has v ms) same h)
have_at (suc i) s (t ∷ ss) (ms ∷ mss) (h, hs) e = have_at i s ss mss hs e

put_both :
    (i : ℕ) (s : Sender) (ms : List Message) (ss : List Sender) (mss : List (List Message))
    → AllHave ss mss
    → Has s ms
    → AllHave (put i s ss) (put i ms mss)
put_both i s ms [] [] hs h = tt
put_both i s ms [] (ns ∷ mss) hs h = absurd hs
put_both i s ms (t ∷ ss) [] hs h = absurd hs
put_both zero s ms (t ∷ ss) (ns ∷ mss) (g, hs) h = (h, hs)
put_both (suc i) s ms (t ∷ ss) (ns ∷ mss) (g, hs) h = (g, put_both i s ms ss mss hs h)

put_same :
    (i : ℕ) (s : Sender) (ms : List Message) (ss : List Sender) (mss : List (List Message))
    → AllHave ss mss
    → get_elem? mss i ≡ some ms
    → Has s ms
    → AllHave (put i s ss) mss
put_same i s ms [] [] hs e h = tt
put_same i s ms [] (ns ∷ mss) hs e h = hs
put_same i s ms (t ∷ ss) [] hs e h = absurd hs
put_same zero s ms (t ∷ ss) (ns ∷ mss) (g, hs) e h =
    let same : ms ≡ ns = cc in (subst (λ v. Has s v) same h, hs)
put_same (suc i) s ms (t ∷ ss) (ns ∷ mss) (g, hs) e h = (g, put_same i s ms ss mss hs e h)

Silent-Have :
    (ss : List Sender) (mss : List (List Message))
    → All Silent ss
    → AllHave ss mss
    → All (λ ms. ms ≡ []) mss
unfolding Has encode
Silent-Have [] [] a h = tt
Silent-Have [] (ms ∷ mss) a h = absurd h
Silent-Have (s ∷ ss) [] a h = absurd h
Silent-Have (s ∷ ss) (ms ∷ mss) ((still, none_left), a) (inl (e, q), hs) =
    (sym q ∙ none_left, Silent-Have ss mss a hs)
Silent-Have (s ∷ ss) (ms ∷ mss) ((still, none_left), a) (inr (m, e, q), hs) =
    absurd (omega (arith, ap length (sym still ∙ e)))

-- A call that takes all of a message.
whole_message :
    (n : ℕ) (bs out rest : List ℕ) (m : Message)
    → n ≡ length bs
    → bs ≡ encode m
    → (out ++ take n bs) ++ rest ≡ out ++ (encode m ++ rest)
whole_message n bs out rest m whole is_m =
    ap (λ k. (out ++ take k bs) ++ rest) whole
    ∙ ap (λ t. (out ++ t) ++ rest) (take-length bs ∙ is_m)
    ∙ append_assoc out (encode m) rest

-- All that is sent behind `out`.
sent-Merged :
    {ss : List Sender} {out final : List ℕ}
    → Talk Whole ss out final
    → (mss : List (List Message)) → AllHave ss mss
    → (ms : List Message) × Merged mss ms × (final ≡ out ++ stream ms)
unfolding Has
sent-Merged (over {out} ss silent) mss h =
    ([], nothing mss (Silent-Have ss mss silent h), sym (append-nil out))
sent-Merged (begins i m ms {ss} e rest) mss h =
    let (ns, there, had) = have_at i _ ss mss h e in
    elim had [
      | inl (_, q) ↦
          sent-Merged rest mss
            (put_same i _ (m ∷ ms) ss mss h (there ∙ ap some (sym q)) (inr (m, refl, refl)))
      | inr (n, wrong, _) ↦ absurd (omega (arith, ap length wrong, length-encode n))
    ]
sent-Merged (sends i n bs ms {ss} {out} e pos_n le whole rest) mss h =
    let (ns, there, had) = have_at i _ ss mss h e in
    elim had [
      | inl (wrong, _) ↦ absurd (omega (arith, ap length wrong))
      | inr (m, is_m, q) ↦
          let tail =
            sent-Merged rest (put i ms mss)
              (put_both i _ ms ss mss h (inl (ap (λ k. drop k bs) whole ∙ drop-length bs, refl))) in
          let (ks, merged, same) = tail in
          (
            m ∷ ks,
            first i m ms ks (there ∙ ap some q) merged,
            same ∙ whole_message n bs out (stream ks) m whole is_m,
          )
    ]

-- Several threads send on one socket, each its messages one after the other. If each call of `send`
-- takes what it is given, then when they are done the socket has taken whole messages, those of each
-- thread in its order and no others.
pub Talk-Merged :
    (mss : List (List Message)) (final : List ℕ)
    → Talk Whole (senders mss) [] final
    → (ms : List Message) × Merged mss ms × (final ≡ stream ms)
Talk-Merged mss final talk = sent-Merged talk mss (senders-Have mss)
