-- ===== src/Network/Closing.antt =====
-- No socket that the bridge makes itself is left open, but the one that it listens on.
use hik_hcnet_http_bridge.Common.{
  ℕ, ◌≡◌, refl, sym, ap, ◌∙◌, Bool, true, false, ◌&&◌, List, [], ◌∷◌, ◌++◌, append-nil, arith,
  Option, none, some,
}
use hik_hcnet_http_bridge.Error.{err, Fault, bridge_error, nvr_unreachable}
use hik_hcnet_http_bridge.Effect.{modify, ◌>>◌, Effect, pure, lift, unless, either}
use hik_hcnet_http_bridge.Effect.Ensures.{
  Outcome, Ensures, Ensures-pure, Ensures-modify, Ensures-bind, Ensures-either, Ensures-test,
  Ensures-weaken, Ensures-given, Ensures-excused,
}
use hik_hcnet_http_bridge.Network.{
  Sockets, no_sockets, make, close, ProbeTurn, probe_socket, on_connect, Connecting, connected,
  would_block, connect_failed, probe_addresses, unreachable, probe_nvr_endpoint, ListenTurn,
  listen_socket, listen_found, listen_addresses, or_bind_failed, create_listener,
}

-- The sockets were closed in the order in which they were made, up to the one that is kept.
abbrev Kept : List ℕ → Sockets → Type 0
Kept kept s = s.made ≡ s.closed ++ kept

abbrev AllClosed : Sockets → Type 0
AllClosed s = Kept [] s

made_last : (fd : ℕ) (s : Sockets) → AllClosed s → Kept (fd ∷ []) (make fd s)
made_last fd s h = ap (λ fds. fds ++ fd ∷ []) (h ∙ append-nil s.closed)

closed_last : (fd : ℕ) (s : Sockets) → Kept (fd ∷ []) s → AllClosed (close fd s)
closed_last fd s h = h ∙ sym (append-nil (s.closed ++ fd ∷ []))

-- How connect on a nonblocking socket comes to a connection: at once, or where it would block behind a
-- poll that reports it, without an error of the socket.
pub data Connects (t : ProbeTurn) : Connecting → Type 0 where
  at_once : Connects t connected
  behind_poll : t.reported ≡ true → t.no_error ≡ true → Connects t would_block

-- The address takes the connection.
pub record Answers (t : ProbeTurn) : Type 0 where
  pub socket : ℕ
  pub made : t.socket ≡ some socket
  pub nonblocking : t.nonblocking ≡ true
  pub connects : Connects t t.connecting

-- One of the addresses that are tried in time takes the connection.
pub data IsReachable : List ProbeTurn → Type 0 where
  here :
      {t : ProbeTurn} {turns : List ProbeTurn}
      → t.time_remains ≡ true
      → Answers t
      → IsReachable (t ∷ turns)
  later :
      {t : ProbeTurn} {turns : List ProbeTurn}
      → t.time_remains ≡ true
      → IsReachable turns
      → IsReachable (t ∷ turns)

abbrev Says : Bool → Type 0 → Type 0
Says true P = P
Says false P = ¬ P

abbrev Never : Fault → Sockets → Type 0
Never e s = ⊥

-- A socket is closed, with what is then said of the address.
closing :
    (P : Type 0) (fd : ℕ) (done : Bool)
    → Says done P
    → Ensures
        (Kept (fd ∷ []))
        (modify (close fd) >> pure done)
        (λ r s. AllClosed s × Says r P)
        Never
closing P fd done says =
    Ensures-bind (λ _. AllClosed) _ _ (Ensures-modify _ (λ s h. closed_last fd s h))
      λ _. Ensures-pure done (λ s h. (h, says))

polled : (t : ProbeTurn) → Connects t would_block → (t.reported ≡ true) × (t.no_error ≡ true)
polled t (behind_poll reported no_error) = (reported, no_error)

says_polled :
    (t : ProbeTurn) (reported no_error : Bool)
    → t.reported ≡ reported
    → t.no_error ≡ no_error
    → Says (reported && no_error) (Connects t would_block)
says_polled t true true e f = behind_poll e f
says_polled t true false e f = λ c. cc (f, (polled t c).1)
says_polled t false no_error e f = λ c. cc (e, (polled t c).0)

unconnected : (t : ProbeTurn) → ¬ (Connects t connect_failed)
unconnected t h = elim h [ ]

on_connect-Connects :
    (t : ProbeTurn) (fd : ℕ) (c : Connecting)
    → Ensures
        (Kept (fd ∷ []))
        (on_connect t fd c)
        (λ r s. AllClosed s × Says r (Connects t c))
        Never
unfolding on_connect
on_connect-Connects t fd connected = closing (Connects t connected) fd true at_once
on_connect-Connects t fd would_block =
    closing (Connects t would_block) fd (t.reported && t.no_error)
      (says_polled t t.reported t.no_error refl refl)
on_connect-Connects t fd connect_failed =
    closing (Connects t connect_failed) fd false (unconnected t)

answered :
    (t : ProbeTurn) (fd : ℕ)
    → t.socket ≡ some fd
    → t.nonblocking ≡ true
    → (r : Bool) → Says r (Connects t t.connecting)
    → Says r (Answers t)
answered t fd e f true connects = record {
  socket = fd;
  made = e;
  nonblocking = f;
  connects = connects;
}
answered t fd e f false refused = λ answers. refused answers.connects

probe_socket-Answers :
    (t : ProbeTurn) (found : Option ℕ)
    → t.socket ≡ found
    → Ensures AllClosed (probe_socket t found) (λ done s. AllClosed s × Says done (Answers t)) Never
unfolding probe_socket
probe_socket-Answers t none e = Ensures-pure false (λ s h. (h, λ answers. cc (e, answers.made)))
probe_socket-Answers t (some fd) e =
    Ensures-bind (λ _. Kept (fd ∷ [])) _ _ (Ensures-modify _ (λ s h. made_last fd s h))
      λ _.
        Ensures-test _ _ _
          (λ blocking. closing (Answers t) fd false (λ answers. cc (blocking, answers.nonblocking)))
          (λ k.
            Ensures-weaken (λ r s h. (h.0, answered t fd e (ground arith) r h.1))
              (on_connect-Connects t fd t.connecting))

unreached :
    (t : ProbeTurn) (turns : List ProbeTurn)
    → ¬ (Answers t)
    → ¬ (IsReachable turns)
    → ¬ (IsReachable (t ∷ turns))
unreached t turns first rest (here timely answers) = first answers
unreached t turns first rest (later timely reachable) = rest reachable

in_time : (t : ProbeTurn) (turns : List ProbeTurn) → IsReachable (t ∷ turns) → t.time_remains ≡ true
in_time t turns (here timely answers) = timely
in_time t turns (later timely reachable) = timely

said_on :
    (t : ProbeTurn) (turns : List ProbeTurn)
    → t.time_remains ≡ true
    → ¬ (Answers t)
    → (r : Bool) → Says r (IsReachable turns)
    → Says r (IsReachable (t ∷ turns))
said_on t turns timely first true reachable = later timely reachable
said_on t turns timely first false rest = unreached t turns first rest

-- The addresses behind one that was tried in time.
behind_first :
    (t : ProbeTurn) (turns : List ProbeTurn) (rest : Effect Sockets Bool)
    → t.time_remains ≡ true
    → Ensures AllClosed rest (λ r s. AllClosed s × Says r (IsReachable turns)) Never
    → (done : Bool)
    → Ensures
        (λ s. AllClosed s × Says done (Answers t))
        (either done (pure true) rest)
        (λ r s. AllClosed s × Says r (IsReachable (t ∷ turns)))
        Never
unfolding either
behind_first t turns rest timely k true = Ensures-pure true (λ s h. (h.0, here timely h.1))
behind_first t turns rest timely k false =
    Ensures-weaken (λ r s h. (h.0.0, said_on t turns timely h.1 r h.0.1)) (Ensures-given k)

told :
    (turns : List ProbeTurn) (done : Bool)
    → Ensures
        (λ s. AllClosed s × Says done (IsReachable turns))
        (unless done (lift (err unreachable)))
        (λ u s. (s.made ≡ s.closed) × IsReachable turns)
        (λ e s.
          (s.made ≡ s.closed) × (e ≡ bridge_error 502 nvr_unreachable) × (¬ (IsReachable turns)))
unfolding unless lift
told turns true = record { at = λ s h. (h.0 ∙ append-nil s.closed, h.1) }
told turns false = record { at = λ s h. (h.0 ∙ append-nil s.closed, refl, h.1) }

probe_addresses-IsReachable :
    (turns : List ProbeTurn)
    → Ensures AllClosed
        (probe_addresses turns)
        (λ done s. AllClosed s × Says done (IsReachable turns))
        Never
unfolding probe_addresses
probe_addresses-IsReachable [] = Ensures-pure false (λ s h. (h, none_reachable))
  where
    none_reachable : ¬ (IsReachable [])
    none_reachable r = elim r [ ]
probe_addresses-IsReachable (t ∷ turns) =
    Ensures-test _ _ _ (λ late. Ensures-pure false (λ s h. (h, λ r. cc (in_time t turns r, late))))
      (λ timely.
        Ensures-bind (λ done s. AllClosed s × Says done (Answers t)) _ _
          (probe_socket-Answers t t.socket refl)
          λ done. behind_first t turns _ (ground arith) (probe_addresses-IsReachable turns) done)

-- The probe has closed every socket that it made, in order. It returns exactly if one of the addresses
-- that are tried in time takes the connection, and else throws 502 NVR_UNREACHABLE.
pub probe_nvr_endpoint-IsReachable :
    (turns : List ProbeTurn)
    → Outcome
        (λ u s. (s.made ≡ s.closed) × IsReachable turns)
        (λ e s.
          (s.made ≡ s.closed) × (e ≡ bridge_error 502 nvr_unreachable) × (¬ (IsReachable turns)))
        (probe_nvr_endpoint (some turns) no_sockets).0
        (probe_nvr_endpoint (some turns) no_sockets).1
unfolding probe_nvr_endpoint
probe_nvr_endpoint-IsReachable turns =
    (Ensures-bind (λ done s. AllClosed s × Says done (IsReachable turns)) _ _
        (Ensures-excused (λ e s h. absurd h) (probe_addresses-IsReachable turns))
        λ done. told turns done).at
      no_sockets refl

-- What listens is the one socket that is open, if there is one.
abbrev Listening : Option ℕ → Sockets → Type 0
Listening none s = AllClosed s
Listening (some fd) s = Kept (fd ∷ []) s

listen_socket-Listening :
    (t : ListenTurn) (found : Option ℕ) → Ensures AllClosed (listen_socket t found) Listening Never
unfolding listen_socket
listen_socket-Listening t none = Ensures-pure none (λ s h. h)
listen_socket-Listening t (some fd) =
    Ensures-bind (λ _. Kept (fd ∷ [])) _ _ (Ensures-modify _ (λ s h. made_last fd s h))
      λ _. Ensures-either _ _ _ (Ensures-pure (some fd) (λ s h. h)) (
        Ensures-bind (λ _. AllClosed) _ _ (Ensures-modify _ (λ s h. closed_last fd s h))
          λ _. Ensures-pure none (λ s h. h))

listen_found-Listening :
    (found : Option ℕ) (rest : Effect Sockets (Option ℕ))
    → Ensures AllClosed rest Listening Never
    → Ensures (Listening found) (listen_found found rest) Listening Never
unfolding listen_found
listen_found-Listening none rest k = k
listen_found-Listening (some fd) rest k = Ensures-pure (some fd) (λ s h. h)

listen_addresses-Listening :
    (turns : List ListenTurn) → Ensures AllClosed (listen_addresses turns) Listening Never
unfolding listen_addresses
listen_addresses-Listening [] = Ensures-pure none (λ s h. h)
listen_addresses-Listening (t ∷ turns) =
    Ensures-bind Listening _ _ (listen_socket-Listening t t.socket)
      λ found. listen_found-Listening found _ (listen_addresses-Listening turns)

bound :
    (found : Option ℕ)
    → Ensures
        (Listening found)
        (lift (or_bind_failed found))
        (λ fd s. s.made ≡ s.closed ++ fd ∷ [])
        (λ e s. s.made ≡ s.closed)
unfolding lift
bound none = record { at = λ s h. h ∙ append-nil s.closed }
bound (some fd) = record { at = λ s h. h }

-- However the listener is made, every other socket that was made for it was closed, in order: where it
-- returns, only the one that it returns is open, and where it throws, none is.
pub create_listener-Closed :
    (turns : Option (List ListenTurn))
    → Outcome
        (λ fd s. s.made ≡ s.closed ++ fd ∷ [])
        (λ e s. s.made ≡ s.closed)
        (create_listener turns no_sockets).0
        (create_listener turns no_sockets).1
unfolding create_listener lift
create_listener-Closed none = refl
create_listener-Closed (some turns) =
    (Ensures-bind Listening _ _
        (Ensures-excused (λ e s h. absurd h) (listen_addresses-Listening turns)) bound).at
      no_sockets refl
