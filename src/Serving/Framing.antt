-- ===== src/Serving/Framing.antt =====
-- What the client gets of a request that returns.
use hik_hcnet_http_bridge.Common.{
  suc, ◌≡◌, refl, sym, ap, ◌∙◌, subst, Bool, true, false, List, [], ◌∷◌, ◌++◌, append_assoc,
  append-nil, some, length,
}
use hik_hcnet_http_bridge.Text.{Bytes}
use hik_hcnet_http_bridge.Error.{Result, ok, err}
use hik_hcnet_http_bridge.Effect.{Effect, pure, on_part}
use hik_hcnet_http_bridge.Effect.Ensures.{
  Outcome, Ensures, Silent, Ensures-pure, Ensures-modify, Ensures-test, Ensures-lifted,
  Ensures-bind, Ensures-seen, Ensures-look, Ensures-weaken, Ensures-ok, Ensures-on_throw,
}
use hik_hcnet_http_bridge.Response.{Client, video_headers}
use hik_hcnet_http_bridge.Response.Chunks.{
  chunk, chunks, end_of_chunks, joined, unchunk, unchunk-chunks, NonEmpty,
}
use hik_hcnet_http_bridge.Request.{StreamRequest}
use hik_hcnet_http_bridge.CodecCache.{Entries}
use hik_hcnet_http_bridge.Ffmpeg.{is_ready, read}
use hik_hcnet_http_bridge.Status.{Statuses}
use hik_hcnet_http_bridge.Mp4.{contains_atom, find_atom}
use hik_hcnet_http_bridge.EndReason.{StreamEndReason, active}
use hik_hcnet_http_bridge.Video.{Pipeline, Outside, set_up}
use hik_hcnet_http_bridge.Video.Ready.{IsServable, set_up-Ensures}
use hik_hcnet_http_bridge.Serving.{
  Streaming, ServingConfig, Serving, OutputLoopTurn, publish, publish_status, final_reason,
  on_client, on_pipeline, output_turn, output_loop, begin_response, end_response, respond, stream,
  serve, new_serving,
}
use hik_hcnet_http_bridge.Response.Sending.{Out, send_text-Out, send_chunk-Out}
use hik_hcnet_http_bridge.Serving.Pieces.{parts_of, parts_of-NonEmpty}

module _ (config : ServingConfig) (request : StreamRequest) (outside : Outside)
    (streaming : Streaming) where
  record Sent (prefix text : Bytes) (s : Serving) : Type 0 where
    out : s.client.written ≡ text
    prepared : s.pipeline.prefix ≡ prefix
    ready : is_ready true prefix ≡ true

  on_client-Sent :
      {prefix before after : Bytes} (m : Effect Client (Unit {0}))
      → Ensures (Out before) m (λ _. Out after) Silent
      → Ensures
          (Sent prefix before)
          (on_client config request outside streaming m)
          (λ _. Sent prefix after)
          Silent
  unfolding on_client on_part
  on_client-Sent {prefix} {before} {after} m k = record {
    at = λ s h. go s h (m s.client).0 (m s.client).1 (k.at s.client h.out);
  }
    where
      go :
          (s : Serving)
          → Sent prefix before s
          → (client : Client) (r : Result (Unit {0})) → Outcome (λ _. Out after) Silent client r
          → Outcome (λ _. Sent prefix after) Silent (record s { client = client }) r
      go s h client (ok u) out = record { out = out; prepared = h.prepared; ready = h.ready }
      go s h client (err e) out = tt

  output_loop-Sent :
      (prefix before : Bytes) (turns : List OutputLoopTurn)
      → Ensures
          (Sent prefix before)
          (output_loop config request outside streaming turns)
          (λ _. Sent prefix (before ++ chunks (parts_of turns)))
          Silent
  unfolding output_loop output_turn
  output_loop-Sent prefix before [] = Ensures-pure active (λ s h. record {
    out = h.out ∙ sym (append-nil before);
    prepared = h.prepared;
    ready = h.ready;
  })
  output_loop-Sent prefix before (turn ∷ turns) =
      Ensures-test _ _ _ (λ e. nothing_sent (simp e refl) (Ensures-pure active (λ s h. h)))
        (λ e.
          Ensures-bind (λ _. Sent prefix before) _ _
            (Ensures-modify _
              (λ s h. record { out = h.out; prepared = h.prepared; ready = h.ready }))
            λ _. Ensures-lifted (read turn.reads) _ λ part came.
              Ensures-test _ _ _
                (λ f.
                  nothing_sent (simp (e, came, f) refl)
                    (Ensures-seen _ _ (λ reason. Ensures-pure reason (λ s h. h))))
                (λ f.
                  Ensures-bind (λ _. Sent prefix (before ++ chunk part)) _ _
                    (on_client-Sent _ (send_chunk-Out streaming.socket before part))
                    λ _.
                      sent_more
                        (simp (e, came, f)
                          (append_assoc before (chunk part) (chunks (parts_of turns))))
                        (output_loop-Sent prefix (before ++ chunk part) turns)))
    where
      sent_more :
          {text text' : Bytes} {P : Serving → Type 0} {m : Effect Serving StreamEndReason}
          → text ≡ text'
          → Ensures P m (λ _. Sent prefix text) Silent
          → Ensures P m (λ _. Sent prefix text') Silent
      sent_more {text} {text'} {P} {m} e k =
          subst (λ t. Ensures P m (λ _. Sent prefix t) Silent) e k

      nothing_sent :
          {parts : List Bytes} {m : Effect Serving StreamEndReason}
          → parts ≡ []
          → Ensures (Sent prefix before) m (λ _. Sent prefix before) Silent
          → Ensures (Sent prefix before) m (λ _. Sent prefix (before ++ chunks parts)) Silent
      nothing_sent {parts} {m} e k =
          sent_more (sym (append-nil before) ∙ ap (λ ps. before ++ chunks ps) (sym e)) k

  begin_response-Sent :
      (prefix : Bytes)
      → Ensures
          (Sent prefix [])
          (begin_response config request outside streaming prefix)
          (λ _. Sent prefix (video_headers config.enable_audio request prefix ++ chunk prefix))
          Silent
  unfolding begin_response
  begin_response-Sent prefix =
      let headers = video_headers config.enable_audio request prefix in
      Ensures-bind (λ _. Sent prefix []) _ _
        (Ensures-modify _ (λ s h. record { out = h.out; prepared = h.prepared; ready = h.ready }))
        λ _.
          Ensures-bind (λ _. Sent prefix headers) _ _
            (on_client-Sent _ (send_text-Out streaming.socket [] headers))
            λ _.
              Ensures-bind (λ _. Sent prefix headers) _ _
                (Ensures-modify _
                  (λ s h. record { out = h.out; prepared = h.prepared; ready = h.ready }))
                λ _. on_client-Sent _ (send_chunk-Out streaming.socket headers prefix)

  published-Sent :
      (done : Bool) (reason : StreamEndReason) {prefix text : Bytes} (s : Serving)
      → Sent prefix text s
      → Sent prefix text (publish config request outside streaming done reason s)
  published-Sent true reason s h = h
  published-Sent false reason s h = record { out = h.out; prepared = h.prepared; ready = h.ready }

  end_response-Sent :
      (prefix before : Bytes) (looped : StreamEndReason)
      → Ensures
          (Sent prefix before)
          (end_response config request outside streaming looped)
          (λ _. Sent prefix (before ++ end_of_chunks))
          Silent
  unfolding end_response publish_status
  end_response-Sent prefix before looped =
      Ensures-bind (λ _. Sent prefix before) _ _
        (Ensures-modify _ (λ s h.
          published-Sent s.status_published (final_reason config request outside streaming looped s)
            s h))
        (λ _. on_client-Sent _ (send_text-Out streaming.socket before end_of_chunks))

  abbrev Unsent : Serving → Type 0
  Unsent s = s.client.written ≡ []

  -- The pipeline is set up before anything goes out.
  set_up-Unsent :
      Ensures Unsent
        (on_pipeline config request outside streaming (set_up config.video request outside))
        (λ _ s. Unsent s × IsServable s.pipeline)
        Silent
  unfolding on_pipeline on_part
  set_up-Unsent = record {
    at = λ s h.
        go s h (set_up config.video request outside s.pipeline).0
          (set_up config.video request outside s.pipeline).1
          ((set_up-Ensures config.video request outside).at s.pipeline tt);
  }
    where
      go :
          (s : Serving)
          → Unsent s
          → (p : Pipeline) (r : Result (Unit {0})) → Outcome (λ _. IsServable) Silent p r
          → Outcome
              (λ _ s'. Unsent s' × IsServable s'.pipeline)
              Silent
              (record s { pipeline = p })
              r
      go s h p (ok u) servable = (h, servable)
      go s h p (err e) servable = tt

  -- What goes out in all, for the data that was ready first.
  abbrev whole : Bytes → Bytes
  whole prefix =
      ((video_headers config.enable_audio request prefix ++ chunk prefix)
        ++ chunks (parts_of streaming.output))
      ++ end_of_chunks

  abbrev AllSent : Serving → Type 0
  AllSent s = (prefix : Bytes) × Sent prefix (whole prefix) s

  stream-AllSent : Ensures Unsent (stream config request outside streaming) (λ _. AllSent) Silent
  unfolding stream respond
  stream-AllSent =
      Ensures-bind (λ _ s. Unsent s × IsServable s.pipeline) _ _ set_up-Unsent
        λ _.
          Ensures-bind (λ prefix. Sent prefix []) _ _
            (Ensures-look _ pure
              (λ s h. unfold pure in record { out = h.0; prepared = refl; ready = h.1 }))
            λ prefix.
              Ensures-bind
                (λ _.
                  Sent prefix (video_headers config.enable_audio request prefix ++ chunk prefix))
                _ _ (begin_response-Sent prefix)
                λ _.
                  Ensures-bind
                    (λ _. Sent prefix (
                      (video_headers config.enable_audio request prefix ++ chunk prefix)
                      ++ chunks (parts_of streaming.output)))
                    _ _ (output_loop-Sent prefix _ streaming.output)
                    λ looped.
                      Ensures-weaken (λ _ s h. (prefix, h)) (end_response-Sent prefix _ looped)

  serve-AllSent : Ensures Unsent (serve config request outside streaming) (λ _. AllSent) Silent
  unfolding serve
  serve-AllSent = Ensures-on_throw Silent _ _ stream-AllSent (λ e s h. tt)

  ready-NonEmpty : (prefix : Bytes) → is_ready true prefix ≡ true → NonEmpty prefix
  ready-NonEmpty [] h = absurd (none_ready h)
    where
      none_ready : is_ready true [] ≡ true → ⊥
      none_ready e = unfold contains_atom find_atom in cc e
  ready-NonEmpty (x ∷ xs) h = refl

  -- The client gets the header and then a body that it reads back as the data that was ready first and
  -- the pieces of FFmpeg's output.
  pub record IsDelivered (s : Serving) : Type 0 where
    pub body : Bytes
    pub written :
        s.client.written ≡ video_headers config.enable_audio request s.pipeline.prefix ++ body
    pub read_back :
        unchunk (suc (suc (length (parts_of streaming.output)))) body
        ≡ some (s.pipeline.prefix ++ joined (parts_of streaming.output))

  AllSent-IsDelivered : (s : Serving) → AllSent s → IsDelivered s
  AllSent-IsDelivered s (prefix, h) =
      let parts = prefix ∷ parts_of streaming.output in
      record {
        body = chunks parts ++ end_of_chunks;
        written =
            h.out
            ∙ regroup (video_headers config.enable_audio request prefix) (chunk prefix)
                (chunks (parts_of streaming.output))
            ∙ ap
                (λ p.
                  video_headers config.enable_audio request p ++ (chunks parts ++ end_of_chunks))
                (sym h.prepared);
        read_back =
            unchunk-chunks parts (ready-NonEmpty prefix h.ready, parts_of-NonEmpty streaming.output)
            ∙ ap (λ p. some (p ++ joined (parts_of streaming.output))) (sym h.prepared);
      }
    where
      regroup :
          (a b c : Bytes) → ((a ++ b) ++ c) ++ end_of_chunks ≡ a ++ ((b ++ c) ++ end_of_chunks)
      regroup a b c = simp append_assoc refl

  -- Whenever a request returns, the client got the header of the response and a chunked body, from
  -- which it reads back, chunk by chunk and up to the last one, the data that was ready first and then
  -- the pieces of FFmpeg's output in order, without loss or repetition.
  pub serve-IsDelivered :
      (entries : Entries) (statuses : Statuses)
      → (serve config request outside streaming
          (new_serving config request outside streaming entries statuses)).1
        ≡ ok tt
      → IsDelivered
          (serve config request outside streaming
            (new_serving config request outside streaming entries statuses)).0
  serve-IsDelivered entries statuses done =
      AllSent-IsDelivered _ (Ensures-ok {Q = λ _. AllSent} serve-AllSent refl done)
