-- ===== src/Client/UdpRelay/Sending.antt =====
-- The queue of the answers and `sendLoop` (src/client/socks5_udp_relay.cpp).
use cppvless.Common.{
  ℕ, suc, Bool, true, false, List, [], ◌∷◌, ◌++◌, subst, sym, append_assoc, length,
}
use cppvless.Client.UdpRelay.{
  PendingDatagram, Socks5UdpRelay, flush, Wake, wakes, broken, send_loop,
}

-- `xs` is `ys` less some elements, at most `n` of them.
pub data Lossy {A : Type 0} : ℕ → List A → List A → Type 0 where
  none_left : {n : ℕ} → Lossy n [] []
  same : {n : ℕ} {x : A} {xs ys : List A} → Lossy n xs ys → Lossy n (x ∷ xs) (x ∷ ys)
  lost : {n : ℕ} {y : A} {xs ys : List A} → Lossy n xs ys → Lossy (suc n) xs (y ∷ ys)

Lossy-refl : {A : Type 0} (n : ℕ) (xs : List A) → Lossy n xs xs
Lossy-refl n [] = none_left
Lossy-refl n (x ∷ xs) = same (Lossy-refl n xs)

Lossy-weaken : {A : Type 0} (n : ℕ) (xs ys : List A) → Lossy n xs ys → Lossy (suc n) xs ys
Lossy-weaken n xs ys none_left = none_left
Lossy-weaken n xs ys (same l) = same (Lossy-weaken n _ _ l)
Lossy-weaken (suc n) xs ys (lost l) = lost (Lossy-weaken n _ _ l)

-- A batch sends a front part of the queue, and loses one datagram at most.
flush-Lossy :
    (qs : List PendingDatagram) (results : List Bool) (n : ℕ) (xs : List PendingDatagram)
    → Lossy n xs (flush qs results).1
    → Lossy (suc n) ((flush qs results).0 ++ xs) qs
unfolding flush
flush-Lossy [] results n xs l = Lossy-weaken n xs [] l
flush-Lossy (q ∷ qs) [] n xs l = lost l
flush-Lossy (q ∷ qs) (false ∷ results) n xs l = lost l
flush-Lossy (q ∷ qs) (true ∷ results) n xs l = same (flush-Lossy qs results n xs l)

-- What was sent and what still waits is the queue in its order, less one datagram at most for each
-- time that the loop was woken.
pub send_loop-Lossy :
    (ws : List Wake) (r : Socks5UdpRelay)
    → Lossy (length ws) ((send_loop r ws).0 ++ (send_loop r ws).1.send_queue) r.send_queue
unfolding send_loop
send_loop-Lossy [] r = Lossy-refl 0 r.send_queue
send_loop-Lossy (broken ∷ ws) r = Lossy-refl (suc (length ws)) r.send_queue
send_loop-Lossy (wakes results ∷ ws) r =
    let rest = record r { send_queue = (flush r.send_queue results).1; signals = 0 } in
    let later = send_loop rest ws in
    subst (λ xs. Lossy (suc (length ws)) xs r.send_queue)
      (sym (append_assoc (flush r.send_queue results).0 later.0 later.1.send_queue))
      (flush-Lossy r.send_queue results (length ws) (later.0 ++ later.1.send_queue)
        (send_loop-Lossy ws rest))
