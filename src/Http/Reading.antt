-- ===== src/Http/Reading.antt =====
-- How a request is read: read_http_request of cpp-sdk-http-bridge-linux/src/main.cpp. What the socket and
-- the clock do in each turn of the loop is given.
use hik_hcnet_http_bridge.Common.{
  ℕ, ◌≡◌, refl, ◌∙◌, sym, Bool, true, false, ◌||◌, not, List, [], ◌∷◌, ◌++◌, append_assoc, Option,
  none, some, leb, if◌then◌else◌, length, is_empty, map, has_value, ◌⊎◌, inl, inr, Bool-cases,
}
use hik_hcnet_http_bridge.Text.{Bytes, is_space, equal}
use hik_hcnet_http_bridge.Text.Separated.{break_at, split}
use hik_hcnet_http_bridge.Dict.{insert}
use hik_hcnet_http_bridge.Error.{
  ◌>>=◌, Fault, Result, ok, err, throw, bridge_error, client_disconnected, bad_request,
  request_timeout, Returns, >>=-Returns, Returns-ok, Returns-err,
}
use hik_hcnet_http_bridge.Query.{Query, parse_query}
use hik_hcnet_http_bridge.Config.{lower}
use hik_hcnet_http_bridge.Config.Json.{skip, take_until, trim, strip, behind_first}
use hik_hcnet_http_bridge.Ffmpeg.Ready.{Begins}
use hik_hcnet_http_bridge.Http.{HttpRequest}

-- `silent`: no bytes yet; `gone`: the client has closed the connection, or the socket fails.
pub data Received : Type 0 where
  silent gone : Received
  received : Bytes → Received

pub record ReceiveTurn : Type 0 where
  pub running : Bool
  pub late : Bool
  pub receives : Received

abbrev pub crlf : Bytes
crlf = 13 ∷ 10 ∷ []

-- The loop is over: the empty line is there, or too much.
abbrev pub is_enough : Bytes → Bool
is_enough raw = has_value (behind_first (13 ∷ 10 ∷ 13 ∷ 10 ∷ []) raw) || leb 16384 (length raw)

abbrev pub on_receive : Result Bytes → (Bytes → Result Bytes) → Received → Result Bytes
on_receive again more silent = again
on_receive again more gone = err client_disconnected
on_receive again more (received part) = more part

-- Behind the turns that the clock allows the deadline is past.
unfoldable pub read_raw : Bytes → List ReceiveTurn → Result Bytes
read_raw raw [] = if is_enough raw then ok raw else throw 400 request_timeout
read_raw raw (turn ∷ turns) =
    let again = read_raw raw turns in
    let more : Bytes → Result Bytes = λ part. read_raw (raw ++ part) turns in
    if is_enough raw
    then ok raw
    else if not turn.running
    then err client_disconnected
    else if turn.late
    then throw 400 request_timeout
    else on_receive again more turn.receives

-- What `line >> word` reads, and what is left.
abbrev pub word : Bytes → Bytes × Bytes
word text =
    let text' = skip is_space text in
    (take_until is_space text', skip (λ c. not (is_space c)) text')

abbrev pub onto : ℕ → Option (Bytes × Bytes) → Option (Bytes × Bytes)
onto c none = none
onto c (some (line, rest)) = some (c ∷ line, rest)

abbrev pub or_behind : Option Bytes → Option (Bytes × Bytes) → Option (Bytes × Bytes)
or_behind none later = later
or_behind (some rest) later = some ([], rest)

-- The first line, and what follows its end.
unfoldable pub cut_line : Bytes → Option (Bytes × Bytes)
unfolding strip
cut_line [] = none
cut_line (c ∷ cs) = or_behind (strip crlf (c ∷ cs)) (onto c (cut_line cs))

abbrev with_header : Bytes × Option Bytes → Query → Query
with_header (name, none) headers = headers
with_header (name, some value) headers = insert (map lower name) (trim value) headers

-- The headers, up to a line that is empty; a line without a colon is passed over.
unfoldable pub read_headers : List Bytes → Query → Query
unfolding trim
read_headers [] headers = headers
read_headers (line ∷ lines) headers =
    let rest = read_headers lines (with_header (break_at b':' line) headers) in
    if equal line (13 ∷ []) then headers else rest

abbrev pub request_of : Bytes → Bytes × Option Bytes → Query → HttpRequest
request_of method (path, none) headers = record {
  method = method;
  path = path;
  query = [];
  headers = headers;
}
request_of method (path, some text) headers = record {
  method = method;
  path = path;
  query = parse_query text;
  headers = headers;
}

-- The three words of the request line must be there.
unfoldable pub request_line : Bytes → Query → Result HttpRequest
request_line line headers =
    let (method, behind_method) = word line in
    let (target, behind_target) = word behind_method in
    let (version, rest) = word behind_target in
    if is_empty method || is_empty target || is_empty version
    then throw 400 bad_request
    else ok (request_of method (break_at b'?' target) headers)

unfoldable pub on_line : Option (Bytes × Bytes) → Result HttpRequest
unfolding request_line read_headers
on_line none = throw 400 bad_request
on_line (some (line, rest)) = request_line line (read_headers (split 10 rest) [])

unfoldable pub parse_request : Bytes → Result HttpRequest
unfolding on_line cut_line
parse_request raw = on_line (cut_line raw)

unfoldable pub read_http_request : List ReceiveTurn → Result HttpRequest
unfolding read_raw parse_request
read_http_request turns = do raw ← read_raw [] turns; parse_request raw

abbrev received_bytes : Received → Bytes
received_bytes (received part) = part
received_bytes _ = []

-- All that the client sent in the turns, in order.
abbrev pub sent_bytes : List ReceiveTurn → Bytes
sent_bytes [] = []
sent_bytes (turn ∷ turns) = received_bytes turn.receives ++ sent_bytes turns

-- The request that was read is that of the start of what the client sent, with its empty line or with
-- more than 16 KiB.
pub record IsRead (turns : List ReceiveTurn) (request : HttpRequest) : Type 0 where
  pub raw : Bytes
  pub begins : Begins raw (sent_bytes turns)
  pub enough : is_enough raw ≡ true
  pub parsed : parse_request raw ≡ ok request

-- The client has gone or the bridge stops, or the request is not in time or no request.
abbrev pub IsUnread : Fault → Type 0
IsUnread e =
    (e ≡ client_disconnected)
    ⊎ (e ≡ bridge_error 400 request_timeout)
    ⊎ (e ≡ bridge_error 400 bad_request)

record IsStart (before all raw : Bytes) : Type 0 where
  begins : Begins raw (before ++ all)
  enough : is_enough raw ≡ true

-- The same start of the same bytes.
regrouped :
    (before before' all all' : Bytes) (r : Result Bytes)
    → before' ++ all' ≡ before ++ all
    → Returns (IsStart before' all') IsUnread r
    → Returns (IsStart before all) IsUnread r
regrouped before before' all all' (ok raw) e h = record {
  begins = (h.begins.0, sym e ∙ h.begins.1);
  enough = h.enough;
}
regrouped before before' all all' (err f) e h = h

on_receive-Returns :
    (before all : Bytes) (r : Received) (again : Result Bytes) (more : Bytes → Result Bytes)
    → Returns (IsStart before all) IsUnread again
    → ((part : Bytes) → Returns (IsStart (before ++ part) all) IsUnread (more part))
    → Returns (IsStart before (received_bytes r ++ all)) IsUnread (on_receive again more r)
on_receive-Returns before all silent again more h k = h
on_receive-Returns before all gone again more h k = inl refl
on_receive-Returns before all (received part) again more h k =
    regrouped before (before ++ part) (part ++ all) all (more part) (append_assoc before part all)
      (k part)

read_raw-Returns :
    (before : Bytes) (turns : List ReceiveTurn)
    → Returns (IsStart before (sent_bytes turns)) IsUnread (read_raw before turns)
unfolding read_raw
read_raw-Returns before [] = elim (Bool-cases (is_enough before)) [
  | inl e ↦ simp e (record { begins = ([], refl); enough = e })
  | inr e ↦ simp e (inr (inl refl))
]
read_raw-Returns before (turn ∷ turns) = elim (Bool-cases (is_enough before)) [
  | inl e ↦ simp e (record { begins = (sent_bytes (turn ∷ turns), refl); enough = e })
  | inr e ↦ elim (Bool-cases turn.running) [
    | inr f ↦ simp (e, f) (inl refl)
    | inl f ↦ elim (Bool-cases turn.late) [
      | inl g ↦ simp (e, f, g) (inr (inl refl))
      | inr g ↦
          simp (e, f, g)
            (on_receive-Returns before (sent_bytes turns) turn.receives (read_raw before turns)
              (λ part. read_raw (before ++ part) turns) (read_raw-Returns before turns)
              (λ part. read_raw-Returns (before ++ part) turns))
    ]
  ]
]

on_line-Returns : (o : Option (Bytes × Bytes)) → Returns (λ _. Unit {0}) IsUnread (on_line o)
unfolding on_line request_line
on_line-Returns none = inr (inr refl)
on_line-Returns (some (line, rest)) = checked _ _
  where
    checked :
        (test : Bool) (request : HttpRequest)
        → Returns (λ _. Unit {0}) IsUnread (if test then throw 400 bad_request else ok request)
    checked true request = inr (inr refl)
    checked false request = tt

-- However the bytes of a request come: read_http_request returns the request that stands at their start,
-- with the empty line behind it or after 16 KiB, or throws: that the client has gone, or 400 where the
-- request is not in time or is none.
pub read_http_request-IsRead :
    (turns : List ReceiveTurn) → Returns (IsRead turns) IsUnread (read_http_request turns)
unfolding read_http_request
read_http_request-IsRead turns =
    >>=-Returns (IsRead turns) IsUnread (read_raw [] turns) parse_request
      (λ e eq. Returns-err (IsStart [] (sent_bytes turns)) IsUnread eq (read_raw-Returns [] turns))
      λ raw eq.
        let start =
          Returns-ok (IsStart [] (sent_bytes turns)) IsUnread eq (read_raw-Returns [] turns) in
        parsed raw start (parse_request raw) refl
          (unfold parse_request in on_line-Returns (cut_line raw))
  where
    parsed :
        (raw : Bytes)
        → IsStart [] (sent_bytes turns) raw
        → (r : Result HttpRequest) → parse_request raw ≡ r
        → Returns (λ _. Unit {0}) IsUnread r
        → Returns (IsRead turns) IsUnread r
    parsed raw start (ok request) eq h = record {
      raw = raw;
      begins = start.begins;
      enough = start.enough;
      parsed = eq;
    }
    parsed raw start (err e) eq h = h
