-- ===== src/Response/Sending.antt =====
-- What text and chunks put on the connection to the client: send_text and send_chunk of
-- cpp-sdk-http-bridge-linux/src/main.cpp, when they return.
use hik_hcnet_http_bridge.Common.{
  ℕ, ◌+◌, ◌≡◌, refl, sym, ap, ◌∙◌, subst, true, false, List, [], ◌++◌, append_assoc, append-nil,
  is_empty, length, arith,
}
use hik_hcnet_http_bridge.Text.{Bytes}
use hik_hcnet_http_bridge.Text.Hex.{hex}
use hik_hcnet_http_bridge.Error.{ok, err}
use hik_hcnet_http_bridge.Effect.Ensures.{Outcome, Ensures, Silent, Ensures-bind, Ensures-unless}
use hik_hcnet_http_bridge.Socket.{SendTurn, Written, write_socket_all}
use hik_hcnet_http_bridge.Socket.Complete.{IsInOrder, write_socket_all-IsInOrder}
use hik_hcnet_http_bridge.Response.{Client, crlf, delivered, send_text, send_chunk}
use hik_hcnet_http_bridge.Response.Chunks.{chunk}

-- So much went out to the client.
abbrev pub Out : Bytes → Client → Type 0
Out text client = client.written ≡ text

module _ (socket : ℕ → List SendTurn) where
  pub send_text-Out :
      (before text : Bytes)
      → Ensures (Out before) (send_text socket text) (λ _. Out (before ++ text)) Silent
  unfolding send_text
  send_text-Out before text = record {
    at = λ client h.
        sending client h (write_socket_all text (socket client.writes))
          (write_socket_all-IsInOrder text (socket client.writes));
  }
    where
      sending :
          (client : Client)
          → Out before client
          → (w : Written) → IsInOrder text w
          → Outcome
              (λ _. Out (before ++ text))
              Silent
              (record { written = client.written ++ w.0; writes = client.writes + 1 })
              (delivered w.1)
      sending client h (out, ok true) k = ap (λ t. t ++ out) h ∙ ap (◌++◌ before) (k.complete refl)
      sending client h (out, ok false) k = tt
      sending client h (out, err e) k = tt

  pub send_chunk-Out :
      (before data' : Bytes)
      → Ensures (Out before) (send_chunk socket data') (λ _. Out (before ++ chunk data')) Silent
  send_chunk-Out before data' =
      let size = hex (length data') ++ crlf in
      subst (λ t. Ensures (Out before) (send_chunk socket data') (λ _. Out t) Silent)
        (chunk_written before (hex (length data')) data')
        (unfold send_chunk in
          Ensures-bind (λ _. Out (before ++ size)) _ _ (send_text-Out before size)
            λ _.
              Ensures-bind (λ _. Out ((before ++ size) ++ data')) _ _
                (Ensures-unless _ _
                  (λ e s h. h ∙ sym (ap (◌++◌ (before ++ size)) (empty e) ∙ append-nil _))
                  (λ _. send_text-Out (before ++ size) data'))
                λ _. send_text-Out ((before ++ size) ++ data') crlf)
    where
      empty : {xs : Bytes} → is_empty xs ≡ true → xs ≡ []
      empty {xs} e = ground arith

      chunk_written :
          (b h d : Bytes) → ((b ++ (h ++ crlf)) ++ d) ++ crlf ≡ b ++ (h ++ (crlf ++ (d ++ crlf)))
      chunk_written b h d = simp append_assoc refl
