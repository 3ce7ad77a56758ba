-- ===== src/ProtocolIo/Scripted.antt =====
-- A scripted connection for the functions of common/protocol_io.c.
use linux_veda_4sensor_tcp_c.Prelude.{
  ℕ, zero, suc, ◌<◌, ◌≤◌, refl, sym, ap, ◌++◌, List, [], ◌∷◌, length, take, drop, take-append-drop,
  arith,
}
use linux_veda_4sensor_tcp_c.ProtocolIo.Defs.{eintr}
use linux_veda_4sensor_tcp_c.ProtocolIo.Contract.{RecvOk, SendOk}
use linux_veda_4sensor_tcp_c.ProtocolIo.Recv.{RecvResult}
use linux_veda_4sensor_tcp_c.ProtocolIo.Send.{SendResult, sent}

-- `cuts` is the script: zero interrupts the call, k lets at most k bytes through. Behind its end
-- every call gets what it asks for.
pub record Wire : Type 0 where
  pub stream : List ℕ
  pub cuts : List ℕ

abbrev pub cap : ℕ → ℕ → ℕ
cap zero n = zero
cap (suc k) zero = zero
cap (suc k) (suc n) = suc (cap k n)

abbrev pub zeros : List ℕ → ℕ
zeros [] = 0
zeros (zero ∷ cs) = suc (zeros cs)
zeros (suc k ∷ cs) = zeros cs

abbrev pub still : Wire → ℕ
still w = zeros w.cuts

abbrev read : ℕ → List ℕ → List ℕ → RecvResult × Wire
read n bs cs = (RecvResult.bytes (take n bs), record { stream = drop n bs; cuts = cs })

abbrev scripted_read : List ℕ → List ℕ → ℕ → RecvResult × Wire
scripted_read bs [] n = read n bs []
scripted_read bs (zero ∷ cs) n = (RecvResult.error eintr, record { stream = bs; cuts = cs })
scripted_read bs (suc k ∷ cs) n = read (cap (suc k) n) bs cs

abbrev pub scripted_recv : Wire → ℕ → RecvResult × Wire
scripted_recv w n = scripted_read w.stream w.cuts n

pub cap-le : (k n : ℕ) → cap k n ≤ n
cap-le zero n = omega arith
cap-le (suc k) zero = omega arith
cap-le (suc k) (suc n) = omega (arith, cap-le k n)

length-take_le : (n : ℕ) (xs : List ℕ) → length (take n xs) ≤ n
length-take_le zero xs = omega arith
length-take_le (suc n) [] = omega arith
length-take_le (suc n) (x ∷ xs) = omega (arith, length-take_le n xs)

read-RecvOk :
    (bs ds cs : List ℕ) (m n : ℕ)
    → m < n
    → zeros cs ≤ zeros ds
    → RecvOk
        (λ w. w.stream)
        still
        (λ _. ⊥)
        (record { stream = bs; cuts = ds })
        n
        (read (suc m) bs cs)
read-RecvOk [] ds cs m n h z = (refl, refl, z)
read-RecvOk (b ∷ bs) ds cs m n h z =
    (omega (arith, length-take_le m bs), sym (ap (◌∷◌ b) (take-append-drop m bs)), z)

scripted_read-RecvOk :
    (bs cs : List ℕ) (n : ℕ)
    → RecvOk
        (λ w. w.stream)
        still
        (λ _. ⊥)
        (record { stream = bs; cuts = cs })
        (suc n)
        (scripted_read bs cs (suc n))
scripted_read-RecvOk bs [] n = read-RecvOk bs [] [] n (suc n) (omega arith) (omega arith)
scripted_read-RecvOk bs (zero ∷ cs) n = (refl, omega arith)
scripted_read-RecvOk bs (suc k ∷ cs) n =
    read-RecvOk bs (suc k ∷ cs) cs (cap k n) (suc n) (omega (arith, cap-le k n)) (omega arith)

pub scripted_recv-RecvOk :
    (w : Wire) (n : ℕ) → 0 < n → RecvOk (λ w. w.stream) still (λ _. ⊥) w n (scripted_recv w n)
scripted_recv-RecvOk w zero h = absurd (omega arith)
scripted_recv-RecvOk w (suc n) h = scripted_read-RecvOk w.stream w.cuts n

-- The same script for `send`: `stream` is what has been taken.
abbrev write : ℕ → List ℕ → List ℕ → List ℕ → SendResult × Wire
write n taken bs cs = (sent n, record { stream = taken ++ take n bs; cuts = cs })

abbrev scripted_write : List ℕ → List ℕ → List ℕ → SendResult × Wire
scripted_write taken [] bs = write (length bs) taken bs []
scripted_write taken (zero ∷ cs) bs = (SendResult.error eintr, record { stream = taken; cuts = cs })
scripted_write taken (suc k ∷ cs) bs = write (cap (suc k) (length bs)) taken bs cs

abbrev pub scripted_send : Wire → List ℕ → SendResult × Wire
scripted_send w bs = scripted_write w.stream w.cuts bs

scripted_write-SendOk :
    (taken cs : List ℕ) (b : ℕ) (bs : List ℕ)
    → SendOk
        (λ w. w.stream)
        still
        (λ _. ⊥)
        (record { stream = taken; cuts = cs })
        (b ∷ bs)
        (scripted_write taken cs (b ∷ bs))
scripted_write-SendOk taken [] b bs = (omega arith, omega arith, refl, omega arith)
scripted_write-SendOk taken (zero ∷ cs) b bs = (refl, omega arith)
scripted_write-SendOk taken (suc k ∷ cs) b bs =
    (omega arith, omega (arith, cap-le k (length bs)), refl, omega arith)

pub scripted_send-SendOk :
    (w : Wire) (bs : List ℕ)
    → 0 < length bs
    → SendOk (λ w. w.stream) still (λ _. ⊥) w bs (scripted_send w bs)
scripted_send-SendOk w [] h = absurd (omega arith)
scripted_send-SendOk w (b ∷ bs) h = scripted_write-SendOk w.stream w.cuts b bs
