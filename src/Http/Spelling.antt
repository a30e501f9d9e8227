-- ===== src/Http/Spelling.antt =====
-- What the bytes of a request spell: its method, its path and its query, by the spaces and the question
-- mark between them.
use hik_hcnet_http_bridge.Common.{
  ℕ, ◌≡◌, ◌≢◌, refl, sym, ap, subst, ◌∙◌, Bool, true, false, ◌||◌, not, List, [], ◌∷◌, ◌++◌, Option,
  none, some, if◌then◌else◌, is_empty, ◌⊎◌, inl, inr, Bool-cases, ◌==◌, All, arith,
}
use hik_hcnet_http_bridge.Text.{Bytes, Free, is_space}
use hik_hcnet_http_bridge.Text.Separated.{break_at, split}
use hik_hcnet_http_bridge.Error.{Result, ok, err, throw, bad_request, Returns, Returns-ok}
use hik_hcnet_http_bridge.Query.{Query, parse_query}
use hik_hcnet_http_bridge.Config.Json.{skip, take_until, strip}
use hik_hcnet_http_bridge.Ffmpeg.Ready.{Begins}
use hik_hcnet_http_bridge.Http.{HttpRequest}
use hik_hcnet_http_bridge.Http.Reading.{
  crlf, onto, or_behind, is_enough, word, cut_line, request_of, request_line, on_line, read_headers,
  parse_request, ReceiveTurn, sent_bytes, read_http_request, IsRead, IsUnread,
  read_http_request-IsRead,
}

-- A word is over: at a space, or at the end.
abbrev EndsWord : Bytes → Type 0
EndsWord [] = Unit {0}
EndsWord (c ∷ cs) = is_space c ≡ true

-- Behind some spaces the text has the word, and then the rest.
pub record HasWord (text word rest : Bytes) : Type 0 where
  pub gap : Bytes
  pub spelled : text ≡ gap ++ (word ++ rest)
  pub spaces : All (λ c. is_space c ≡ true) gap
  pub solid : All (λ c. is_space c ≡ false) word
  pub over : EndsWord rest

record HasGap (text : Bytes) : Type 0 where
  gap : Bytes
  spelled : text ≡ gap ++ skip is_space text
  spaces : All (λ c. is_space c ≡ true) gap

skip-HasGap : (text : Bytes) → HasGap text
unfolding skip
skip-HasGap [] = record { gap = []; spelled = refl; spaces = tt }
skip-HasGap (c ∷ cs) = elim (Bool-cases (is_space c)) [
  | inl e ↦
      let h = skip-HasGap cs in
      record { gap = c ∷ h.gap; spelled = simp e (ap (◌∷◌ c) h.spelled); spaces = (e, h.spaces) }
  | inr e ↦ record { gap = []; spelled = simp e refl; spaces = tt }
]

record IsCut (text : Bytes) : Type 0 where
  spelled : text ≡ take_until is_space text ++ skip (λ c. not (is_space c)) text
  solid : All (λ c. is_space c ≡ false) (take_until is_space text)
  over : EndsWord (skip (λ c. not (is_space c)) text)

take_until-IsCut : (text : Bytes) → IsCut text
unfolding skip take_until
take_until-IsCut [] = record { spelled = refl; solid = tt; over = tt }
take_until-IsCut (c ∷ cs) = elim (Bool-cases (is_space c)) [
  | inl e ↦ record { spelled = simp e refl; solid = simp e tt; over = simp e refl }
  | inr e ↦
      let h = take_until-IsCut cs in
      record {
        spelled = simp e (ap (◌∷◌ c) h.spelled);
        solid = simp e (refl, h.solid);
        over = simp e h.over;
      }
]

word-HasWord : (text : Bytes) → HasWord text (word text).0 (word text).1
word-HasWord text =
    let h = skip-HasGap text in
    let k = take_until-IsCut (skip is_space text) in
    record {
      gap = h.gap;
      spelled = h.spelled ∙ ap (◌++◌ h.gap) k.spelled;
      spaces = h.spaces;
      solid = k.solid;
      over = k.over;
    }

-- The target is the path, or the path, the first question mark and the query.
abbrev pub HasTarget : Bytes → HttpRequest → Type 0
HasTarget target request =
    (target ≡ request.path) × Free b'?' request.path × (request.query ≡ [])
    ⊎ ((text : Bytes) × (target ≡ request.path ++ b'?' ∷ text)
        × Free b'?' request.path
        × (request.query ≡ parse_query text))

abbrev Parts : ℕ → Bytes → Bytes × Option Bytes → Type 0
Parts c text (before, none) = (text ≡ before) × Free c before
Parts c text (before, some rest) = (text ≡ before ++ c ∷ rest) × Free c before

Parts-cons :
    (c x : ℕ) (text : Bytes) (parts : Bytes × Option Bytes)
    → x ≢ c
    → Parts c text parts
    → Parts c (x ∷ text) (x ∷ parts.0, parts.1)
Parts-cons c x text (before, none) h k = (ap (◌∷◌ x) k.0, (h, k.1))
Parts-cons c x text (before, some rest) h k = (ap (◌∷◌ x) k.0, (h, k.1))

break_at-Parts : (c : ℕ) (text : Bytes) → Parts c text (break_at c text)
unfolding break_at
break_at-Parts c [] = (refl, tt)
break_at-Parts c (x ∷ xs) = elim (Bool-cases (x == c)) [
  | inl e ↦ simp e (ap (λ y. y ∷ xs) (ground (arith, e)), tt)
  | inr e ↦
      simp e (Parts-cons c x xs (break_at c xs) (λ h. ground (arith, e, h)) (break_at-Parts c xs))
]

request_of-HasTarget :
    (method target : Bytes) (headers : Query) (parts : Bytes × Option Bytes)
    → Parts b'?' target parts
    → HasTarget target (request_of method parts headers)
request_of-HasTarget method target headers (path, none) h = inl (h.0, h.1, refl)
request_of-HasTarget method target headers (path, some text) h = inr (text, h.0, h.1, refl)

request_of-method :
    (method : Bytes) (headers : Query) (parts : Bytes × Option Bytes)
    → (request_of method parts headers).method ≡ method
request_of-method method headers (path, none) = refl
request_of-method method headers (path, some text) = refl

-- The first line, up to a line break, is of at least three words: the method, the target and another.
pub record IsSpelled (raw : Bytes) (request : HttpRequest) : Type 0 where
  pub line : Bytes
  pub rest : Bytes
  pub lines : raw ≡ line ++ 13 ∷ 10 ∷ rest
  pub target : Bytes
  pub version : Bytes
  pub behind_method : Bytes
  pub behind_target : Bytes
  pub behind_version : Bytes
  pub method_first : HasWord line request.method behind_method
  pub target_second : HasWord behind_method target behind_target
  pub version_third : HasWord behind_target version behind_version
  pub method_given : is_empty request.method ≡ false
  pub target_given : is_empty target ≡ false
  pub version_given : is_empty version ≡ false
  pub target_parts : HasTarget target request

abbrev Stripped : Bytes → Bytes → Option Bytes → Type 0
Stripped key text none = Unit {0}
Stripped key text (some rest) = text ≡ key ++ rest

Stripped-cons :
    (k c : ℕ) (ks cs : Bytes) (found : Option Bytes)
    → c ≡ k
    → Stripped ks cs found
    → Stripped (k ∷ ks) (c ∷ cs) found
Stripped-cons k c ks cs none e h = tt
Stripped-cons k c ks cs (some rest) e h = cc (e, h)

strip-Stripped : (key text : Bytes) → Stripped key text (strip key text)
unfolding strip
strip-Stripped [] text = refl
strip-Stripped (k ∷ ks) [] = tt
strip-Stripped (k ∷ ks) (c ∷ cs) = elim (Bool-cases (c == k)) [
  | inl e ↦
      simp e (Stripped-cons k c ks cs (strip ks cs) (ground (arith, e)) (strip-Stripped ks cs))
  | inr e ↦ simp e tt
]

abbrev Lines : Bytes → Option (Bytes × Bytes) → Type 0
Lines raw none = Unit {0}
Lines raw (some (line, rest)) = raw ≡ line ++ 13 ∷ 10 ∷ rest

or_behind-Lines :
    (c : ℕ) (cs : Bytes) (found : Option Bytes) (later : Option (Bytes × Bytes))
    → Stripped crlf (c ∷ cs) found
    → Lines cs later
    → Lines (c ∷ cs) (or_behind found (onto c later))
or_behind-Lines c cs none none h k = tt
or_behind-Lines c cs none (some (line, rest)) h k = ap (◌∷◌ c) k
or_behind-Lines c cs (some rest) later h k = h

cut_line-Lines : (raw : Bytes) → Lines raw (cut_line raw)
unfolding cut_line
cut_line-Lines [] = tt
cut_line-Lines (c ∷ cs) =
    or_behind-Lines c cs (strip crlf (c ∷ cs)) (cut_line cs) (strip-Stripped crlf (c ∷ cs))
      (cut_line-Lines cs)

request_line-IsSpelled :
    (raw line rest : Bytes) (headers : Query)
    → raw ≡ line ++ 13 ∷ 10 ∷ rest
    → Returns (IsSpelled raw) (λ e. Unit {0}) (request_line line headers)
unfolding request_line
request_line-IsSpelled raw line rest headers lines = checked _ refl
  where
    first : Bytes × Bytes
    first = word line

    second : Bytes × Bytes
    second = word first.1

    third : Bytes × Bytes
    third = word second.1

    parts : Bytes × Option Bytes
    parts = break_at b'?' second.0

    same : (request_of first.0 parts headers).method ≡ first.0
    same = request_of-method first.0 headers parts

    checked :
        (test : Bool)
        → is_empty first.0 || is_empty second.0 || is_empty third.0 ≡ test
        → Returns
            (IsSpelled raw)
            (λ e. Unit {0})
            (if test then throw 400 bad_request else ok (request_of first.0 parts headers))
    checked true f = tt
    checked false f = record {
      line = line;
      rest = rest;
      lines = lines;
      target = second.0;
      version = third.0;
      behind_method = first.1;
      behind_target = second.1;
      behind_version = third.1;
      method_first = subst (λ m. HasWord line m first.1) (sym same) (word-HasWord line);
      target_second = word-HasWord first.1;
      version_third = word-HasWord second.1;
      method_given = ap is_empty same ∙ ground (arith, f);
      target_given = ground (arith, f);
      version_given = ground (arith, f);
      target_parts =
          request_of-HasTarget first.0 second.0 headers parts (break_at-Parts b'?' second.0);
    }

on_line-IsSpelled :
    (raw : Bytes) (found : Option (Bytes × Bytes))
    → Lines raw found
    → Returns (IsSpelled raw) (λ e. Unit {0}) (on_line found)
unfolding on_line
on_line-IsSpelled raw none h = tt
on_line-IsSpelled raw (some (line, rest)) h =
    request_line-IsSpelled raw line rest (read_headers (split 10 rest) []) h

parse_request-IsSpelled :
    (raw : Bytes) → Returns (IsSpelled raw) (λ e. Unit {0}) (parse_request raw)
unfolding parse_request
parse_request-IsSpelled raw = on_line-IsSpelled raw (cut_line raw) (cut_line-Lines raw)

-- The method, the path and the query of the request are those that the start of what the client sent
-- spells, with its empty line or with 16 KiB.
pub record IsSent (turns : List ReceiveTurn) (request : HttpRequest) : Type 0 where
  pub raw : Bytes
  pub begins : Begins raw (sent_bytes turns)
  pub enough : is_enough raw ≡ true
  pub spelled : IsSpelled raw request

read_IsSent :
    (turns : List ReceiveTurn) (r : Result HttpRequest)
    → Returns (IsRead turns) IsUnread r
    → Returns (IsSent turns) IsUnread r
read_IsSent turns (ok request) h = record {
  raw = h.raw;
  begins = h.begins;
  enough = h.enough;
  spelled = Returns-ok (IsSpelled h.raw) (λ e. Unit {0}) h.parsed (parse_request-IsSpelled h.raw);
}
read_IsSent turns (err e) h = h

-- However the bytes of a request come: read_http_request returns a request whose method, path and query
-- are spelled at the start of the bytes: by the first two of three words of a line, the second cut at its
-- first question mark. The empty line or 16 KiB are then there. Or it throws: that the client has gone,
-- or 400 where the request is not in time or is none.
pub read_http_request-IsSent :
    (turns : List ReceiveTurn) → Returns (IsSent turns) IsUnread (read_http_request turns)
read_http_request-IsSent turns =
    read_IsSent turns (read_http_request turns) (read_http_request-IsRead turns)
