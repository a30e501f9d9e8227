-- ===== src/Workers/Accounting.antt =====
-- Every connection is held by one worker or was closed once, and there are not too many workers.
use hik_hcnet_http_bridge.Common.{
  ℕ, suc, ◌+◌, ◌≤◌, ◌≡◌, refl, ap, ◌∙◌, sym, Bool, true, false, ◌&&◌, not, List, [], ◌∷◌, ◌++◌, leb,
  ◌==◌, if◌then◌else◌, length, keep, count_if, count_if-append, length-append, length-keep-le, All,
  All-append, All-keep, arith, Bool-cases, inl, inr,
}
use hik_hcnet_http_bridge.Workers.{
  Worker, ConnectionWorkers, new_workers, close_socket, reap, new_worker, hand_over, take_on,
  accept, start, socket_closed, set_done, WorkerStep, closes, sets_done, Step, starts, rejects,
  reaps, works, Reaches, here, step, Polled, poll_failed, idle, accept_failed, connects,
  is_local_ipv4_client, accept_turn,
}

abbrev pub times : ℕ → List ℕ → ℕ
times n xs = count_if (λ m. m == n) xs

-- How many workers hold the socket.
abbrev pub held : ℕ → List Worker → ℕ
held n ws = count_if (λ (w : Worker). w.is_open && w.socket == n) ws

abbrev pub ClosedFirst : Worker → Type 0
ClosedFirst w = w.done ≡ true → w.is_open ≡ false

pub record IsAccounted (s : ConnectionWorkers) : Type 0 where
  pub within : length s.workers ≤ s.maximum
  pub closed_first : All ClosedFirst s.workers
  pub balance : (n : ℕ) → times n s.accepted ≡ times n s.closed + held n s.workers

-- A worker that is done holds nothing.
held-reap :
    (n : ℕ) (ws : List Worker) → All ClosedFirst ws → held n (keep (λ w. not w.done) ws) ≡ held n ws
held-reap n [] h = refl
held-reap n (w ∷ ws) h = elim (Bool-cases w.done) [
  | inl e ↦ simp (e, h.0 e) (held-reap n ws h.1 ∙ omega arith)
  | inr e ↦
      simp e (ap (λ k. (if w.is_open && w.socket == n then 1 else 0) + k) (held-reap n ws h.1))
]

reap-IsAccounted : (s : ConnectionWorkers) → IsAccounted s → IsAccounted (reap s)
unfolding reap
reap-IsAccounted s a = record {
  within = omega (arith, a.within, length-keep-le (λ (w : Worker). not w.done) s.workers);
  closed_first = All-keep ClosedFirst (λ w. not w.done) s.workers a.closed_first;
  balance = λ n.
      a.balance n ∙ ap (λ k. times n s.closed + k) (sym (held-reap n s.workers a.closed_first));
}

-- A connection that was not handed over yet, on its way: closed at once, or held by a new worker.
record IsArriving (client : ℕ) (s : ConnectionWorkers) : Type 0 where
  within : length s.workers ≤ s.maximum
  closed_first : All ClosedFirst s.workers
  balance :
      (n : ℕ) → times n s.accepted ≡ times n s.closed + held n s.workers + times n (client ∷ [])

turned_away :
    (client : ℕ) (s : ConnectionWorkers) → IsArriving client s → IsAccounted (close_socket client s)
turned_away client s a = record {
  within = a.within;
  closed_first = a.closed_first;
  balance = λ n. omega (arith, a.balance n, count_if-append (λ m. m == n) s.closed (client ∷ []));
}

taken_on :
    (client : ℕ) (s : ConnectionWorkers)
    → IsArriving client s
    → leb s.maximum (length s.workers) ≡ false
    → IsAccounted (record s { workers = s.workers ++ new_worker client ∷ [] })
taken_on client s a room = record {
  within = ground (arith, length-append s.workers (new_worker client ∷ []));
  closed_first =
      All-append ClosedFirst s.workers (new_worker client ∷ []) a.closed_first ((λ e. cc e), tt);
  balance = λ n. omega (
    arith,
    a.balance n,
    count_if-append (λ (w : Worker). w.is_open && w.socket == n) s.workers (new_worker client ∷ []),
  );
}

take_on-IsAccounted :
    (made threaded : Bool) (client : ℕ) (s : ConnectionWorkers)
    → IsArriving client s
    → IsAccounted (take_on made threaded client s).0
take_on-IsAccounted made threaded client s a =
    elim (Bool-cases (leb s.maximum (length s.workers))) [
      | inl full ↦ simp full (turned_away client s a)
      | inr room ↦ simp room (serves made threaded room)
    ]
  where
    serves :
        (made' threaded' : Bool)
        → leb s.maximum (length s.workers) ≡ false
        → IsAccounted (hand_over made' threaded' client s).0
    serves false threaded' room = turned_away client s a
    serves true false room = turned_away client s a
    serves true true room = taken_on client s a room

arriving :
    (client : ℕ) (s : ConnectionWorkers) → IsAccounted s → IsArriving client (accept client s)
arriving client s a = record {
  within = a.within;
  closed_first = a.closed_first;
  balance = λ n.
      count_if-append (λ m. m == n) s.accepted (client ∷ [])
      ∙ ap (λ k. k + times n (client ∷ [])) (a.balance n);
}

reap-IsArriving :
    (client : ℕ) (s : ConnectionWorkers) → IsArriving client s → IsArriving client (reap s)
unfolding reap
reap-IsArriving client s a = record {
  within = omega (arith, a.within, length-keep-le (λ (w : Worker). not w.done) s.workers);
  closed_first = All-keep ClosedFirst (λ w. not w.done) s.workers a.closed_first;
  balance = λ n.
      a.balance n
      ∙ ap (λ k. times n s.closed + k + times n (client ∷ []))
          (sym (held-reap n s.workers a.closed_first));
}

start-IsAccounted :
    (configured made threaded : Bool) (client : ℕ) (s : ConnectionWorkers)
    → IsAccounted s
    → IsAccounted (start configured made threaded client s).0
unfolding start
start-IsAccounted false made threaded client s a =
    turned_away client (accept client s) (arriving client s a)
start-IsAccounted true made threaded client s a =
    take_on-IsAccounted made threaded client (reap (accept client s))
      (reap-IsArriving client (accept client s) (arriving client s a))

-- A change of one worker.
All-change :
    (before after : List Worker) (w v : Worker)
    → (ClosedFirst w → ClosedFirst v)
    → All ClosedFirst (before ++ w ∷ after)
    → All ClosedFirst (before ++ v ∷ after)
All-change [] after w v f h = (f h.0, h.1)
All-change (b ∷ before) after w v f h = (h.0, All-change before after w v f h.1)

length-change :
    (before after : List Worker) (w v : Worker)
    → length (before ++ v ∷ after) ≡ length (before ++ w ∷ after)
length-change [] after w v = refl
length-change (b ∷ before) after w v = ap suc (length-change before after w v)

held-socket_closed :
    (n : ℕ) (before after : List Worker) (w : Worker)
    → w.is_open ≡ true
    → held n (before ++ w ∷ after)
      ≡ held n (before ++ socket_closed w ∷ after) + times n (w.socket ∷ [])
held-socket_closed n [] after w e = simp e (omega arith)
held-socket_closed n (b ∷ before) after w e = omega (arith, held-socket_closed n before after w e)

held-set_done :
    (n : ℕ) (before after : List Worker) (w : Worker)
    → held n (before ++ set_done w ∷ after) ≡ held n (before ++ w ∷ after)
held-set_done n [] after w = refl
held-set_done n (b ∷ before) after w =
    ap (λ k. (if b.is_open && b.socket == n then 1 else 0) + k) (held-set_done n before after w)

pub WorkerStep-IsAccounted :
    {s t : ConnectionWorkers} → WorkerStep s t → IsAccounted s → IsAccounted t
WorkerStep-IsAccounted (closes s before after w e) a = record {
  within = omega (arith, a.within, length-change before after w (socket_closed w));
  closed_first = All-change before after w (socket_closed w) (λ _ _. refl) a.closed_first;
  balance = λ n. omega (
    arith,
    a.balance n,
    held-socket_closed n before after w e,
    count_if-append (λ m. m == n) s.closed (w.socket ∷ []),
  );
}
WorkerStep-IsAccounted (sets_done s before after w e f) a = record {
  within = omega (arith, a.within, length-change before after w (set_done w));
  closed_first = All-change before after w (set_done w) (λ _ _. e) a.closed_first;
  balance =
      λ n. a.balance n ∙ ap (λ k. times n s.closed + k) (sym (held-set_done n before after w));
}

Step-IsAccounted : {s t : ConnectionWorkers} → Step s t → IsAccounted s → IsAccounted t
Step-IsAccounted (starts configured made threaded client s) a =
    start-IsAccounted configured made threaded client s a
Step-IsAccounted (rejects client s) a = turned_away client (accept client s) (arriving client s a)
Step-IsAccounted (reaps s) a = reap-IsAccounted s a
Step-IsAccounted (works w) a = WorkerStep-IsAccounted w a

Reaches-kept : {s t : ConnectionWorkers} → Reaches s t → IsAccounted s → IsAccounted t
Reaches-kept (here s) a = a
Reaches-kept (step r x) a = Step-IsAccounted x (Reaches-kept r a)

-- A turn of the accept loop is made of these steps.
pub accept_turn-Reaches :
    (p : Polled) {s t : ConnectionWorkers} → Reaches s t → Reaches s (accept_turn p t)
unfolding accept_turn
accept_turn-Reaches poll_failed r = step r (reaps _)
accept_turn-Reaches idle r = step r (reaps _)
accept_turn-Reaches accept_failed r = step r (reaps _)
accept_turn-Reaches (connects c) {s} {t} r = elim (Bool-cases (is_local_ipv4_client c.peer)) [
  | inl e ↦
      simp e (step (step r (reaps t)) (starts c.configured c.made c.threaded c.client (reap t)))
  | inr e ↦ simp e (step (step r (reaps t)) (rejects c.client (reap t)))
]

-- Whatever connections come and whatever the threads do: there are never more workers than the
-- maximum, a worker is done only behind its socket, and every socket that was handed over is
-- closed exactly as often as it came, but for those that a worker still holds.
pub Reaches-IsAccounted :
    (maximum : ℕ) {s : ConnectionWorkers} → Reaches (new_workers maximum) s → IsAccounted s
Reaches-IsAccounted maximum r = Reaches-kept r (start_empty maximum)
  where
    start_empty : (m : ℕ) → IsAccounted (new_workers m)
    start_empty m =
        unfold new_workers in
        record { within = omega arith; closed_first = tt; balance = λ n. refl }
