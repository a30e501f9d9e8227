-- ===== src/Socket/Complete.antt =====
-- No byte of the response is lost, doubled or out of order.
use hik_hcnet_http_bridge.Common.{
  ℕ, zero, suc, ◌≡◌, refl, sym, ap, ◌∙◌, Bool, true, false, List, [], ◌∷◌, ◌++◌, append_assoc,
  Option, none, some, take, drop, Bool-cases, inl, inr,
}
use hik_hcnet_http_bridge.Text.{Bytes}
use hik_hcnet_http_bridge.Error.{Fault, Result, ok, err}
use hik_hcnet_http_bridge.Socket.{
  Sent, sent, would_block, interrupted, failed, SendTurn, Written, behind, blocked, taken_of,
  on_send, write_socket_all,
}

-- The bytes that went out are the start of the data, and all of them where the outcome is true.
pub record IsInOrder (data' : Bytes) (w : Written) : Type 0 where
  pub rest : Bytes
  pub in_order : data' ≡ w.0 ++ rest
  pub complete : w.1 ≡ ok true → w.0 ≡ data'

take-drop : (n : ℕ) (xs : Bytes) → take n xs ++ drop n xs ≡ xs
take-drop zero xs = refl
take-drop (suc n) [] = refl
take-drop (suc n) (x ∷ xs) = ap (◌∷◌ x) (take-drop n xs)

behind-IsInOrder :
    (n : ℕ) (xs : Bytes) (w : Written)
    → IsInOrder (drop n xs) w
    → IsInOrder xs (behind (take n xs) w)
behind-IsInOrder n xs w h = record {
  rest = h.rest;
  in_order =
      sym (take-drop n xs)
      ∙ ap (◌++◌ (take n xs)) h.in_order
      ∙ sym (append_assoc (take n xs) w.0 h.rest);
  complete = λ e. ap (◌++◌ (take n xs)) (h.complete e) ∙ take-drop n xs;
}

unsent-IsInOrder : (xs : Bytes) (r : Result Bool) → (r ≡ ok true → ⊥) → IsInOrder xs ([], r)
unsent-IsInOrder xs r h = record { rest = xs; in_order = refl; complete = λ e. absurd (h e) }

blocked-IsInOrder :
    (xs : Bytes) (e : Option Fault) (stalled : Bool) (again : Written)
    → IsInOrder xs again
    → IsInOrder xs (blocked e stalled again)
blocked-IsInOrder xs (some e) stalled again h = unsent-IsInOrder xs (err e) (λ p. cc p)
blocked-IsInOrder xs none true again h = unsent-IsInOrder xs _ (λ p. cc p)
blocked-IsInOrder xs none false again h = h

on_send-IsInOrder :
    (xs : Bytes) (more : ℕ → Written) (again : Written) (turn : SendTurn) (s : Sent)
    → ((n : ℕ) → IsInOrder (drop n xs) (more n))
    → IsInOrder xs again
    → IsInOrder xs (on_send xs more again turn s)
on_send-IsInOrder xs more again turn (sent zero) h k = unsent-IsInOrder xs (ok false) (λ p. cc p)
on_send-IsInOrder xs more again turn (sent (suc n)) h k =
    behind-IsInOrder (taken_of (suc n)) xs (more (taken_of (suc n))) (h (taken_of (suc n)))
on_send-IsInOrder xs more again turn would_block h k =
    blocked-IsInOrder xs turn.checked turn.stalled again k
on_send-IsInOrder xs more again turn interrupted h k = k
on_send-IsInOrder xs more again turn failed h k = unsent-IsInOrder xs (ok false) (λ p. cc p)

-- However the socket splits, delays or interrupts the writing, the bytes that went out are the start
-- of the data, byte for byte; and write_socket_all answers true only if all of them did.
pub write_socket_all-IsInOrder :
    (bytes : Bytes) (turns : List SendTurn) → IsInOrder bytes (write_socket_all bytes turns)
unfolding write_socket_all
write_socket_all-IsInOrder [] turns = record { rest = []; in_order = refl; complete = λ _. refl }
write_socket_all-IsInOrder (c ∷ cs) [] = unsent-IsInOrder (c ∷ cs) (ok false) (λ p. cc p)
write_socket_all-IsInOrder (c ∷ cs) (turn ∷ turns) = elim (Bool-cases turn.running) [
  | inl e ↦ simp e (
      on_send-IsInOrder (c ∷ cs) (λ n. write_socket_all (drop n (c ∷ cs)) turns)
        (write_socket_all (c ∷ cs) turns) turn turn.send
        (λ n. write_socket_all-IsInOrder (drop n (c ∷ cs)) turns)
        (write_socket_all-IsInOrder (c ∷ cs) turns))
  | inr e ↦ simp e (unsent-IsInOrder (c ∷ cs) (ok false) (λ p. cc p))
]
