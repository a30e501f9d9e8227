-- ===== src/Quoting/RoundTrip.antt =====
-- A program that splits its command line by the rules of Windows gets its arguments back.
use hik_hcnet_http_bridge.Common.{
  ℕ, zero, suc, ◌+◌, ◌*◌, ◌/◌, ◌%◌, ◌≡◌, refl, ap, sym, ◌∙◌, Bool, true, false, ◌||◌, List, [], ◌∷◌,
  ◌++◌, ◌==◌, if◌then◌else◌, Option, none, some, arith, Bool-cases, inl, inr, is_empty, All, length,
}
use hik_hcnet_http_bridge.Text.{Bytes}
use hik_hcnet_http_bridge.Config.Json.{skip}
use hik_hcnet_http_bridge.Quoting.{
  backslashes, quote_from, quote, needs_quotes, quote_windows_argument, joined_by,
}

abbrev onto : Bytes → Option (Bytes × Bytes) → Option (Bytes × Bytes)
onto part none = none
onto part (some (value, rest)) = some (part ++ value, rest)

-- An argument inside quotes, behind so many backslashes: 2n backslashes and a quote stand for n
-- backslashes and the end, 2n + 1 for n backslashes and a quote, and others for themselves.
unfoldable pub read_quoted : ℕ → Bytes → Option (Bytes × Bytes)
read_quoted n [] = none
read_quoted n (c ∷ cs) =
    let counted = read_quoted (suc n) cs in
    let later = read_quoted 0 cs in
    if c == b'\\'
    then counted
    else if c == b'"'
    then if n % 2 == 0
      then some (backslashes (n / 2) [], cs)
      else onto (backslashes (n / 2) (b'"' ∷ [])) later
    else onto (backslashes n (c ∷ [])) later

read_quoted-backslashes :
    (m n : ℕ) (t : Bytes) → read_quoted n (backslashes m t) ≡ read_quoted (m + n) t
unfolding read_quoted
read_quoted-backslashes zero n t = ap (λ (k : ℕ). read_quoted k t) (omega arith)
read_quoted-backslashes (suc m) n t =
    read_quoted-backslashes m (suc n) t ∙ ap (λ (k : ℕ). read_quoted k t) (omega arith)

backslashes-append : (m : ℕ) (s t : Bytes) → backslashes m s ++ t ≡ backslashes m (s ++ t)
backslashes-append zero s t = refl
backslashes-append (suc m) s t = ap (◌∷◌ b'\\') (backslashes-append m s t)

-- A character that was written behind its backslashes is read with them.
read_quoted-plain :
    (n c : ℕ) (t : Bytes)
    → (c == b'\\') ≡ false
    → (c == b'"') ≡ false
    → read_quoted n (c ∷ t) ≡ onto (backslashes n (c ∷ [])) (read_quoted 0 t)
unfolding read_quoted
read_quoted-plain n c t e f = simp (e, f) refl

read_quoted-quote :
    (n : ℕ) (t : Bytes)
    → read_quoted (n * 2 + 1) (b'"' ∷ t) ≡ onto (backslashes n (b'"' ∷ [])) (read_quoted 0 t)
unfolding read_quoted
read_quoted-quote n t =
    let odd : (n * 2 + 1) % 2 == 0 ≡ false = ground arith in
    let half : (n * 2 + 1) / 2 ≡ n = omega arith in simp (odd, half) refl

read_quoted-end : (n : ℕ) (t : Bytes) → read_quoted (n * 2) (b'"' ∷ t) ≡ some (backslashes n [], t)
unfolding read_quoted
read_quoted-end n t =
    let even : (n * 2) % 2 == 0 ≡ true = ground arith in
    let half : (n * 2) / 2 ≡ n = omega arith in simp (even, half) refl

backslashes_later : (n : ℕ) (t : Bytes) → backslashes (suc n) t ≡ backslashes n (b'\\' ∷ t)
backslashes_later zero t = refl
backslashes_later (suc n) t = ap (◌∷◌ b'\\') (backslashes_later n t)

same_character : (a b : ℕ) → (a == b) ≡ true → a ≡ b
same_character a b e = ground (arith, e)

read_quoted_behind :
    (m : ℕ) (t rest : Bytes) → read_quoted 0 (backslashes m t ++ rest) ≡ read_quoted m (t ++ rest)
read_quoted_behind m t rest =
    ap (read_quoted 0) (backslashes-append m t rest)
    ∙ read_quoted-backslashes m 0 (t ++ rest)
    ∙ ap (λ (k : ℕ). read_quoted k (t ++ rest)) (omega arith)

kept :
    (n k : ℕ) (cs rest : Bytes) {r : Option (Bytes × Bytes)}
    → r ≡ some (cs, rest)
    → onto (backslashes n (k ∷ [])) r ≡ some (backslashes n (k ∷ cs), rest)
kept n k cs rest {r} h =
    ap (onto (backslashes n (k ∷ []))) h
    ∙ ap (λ t. some (t, rest)) (backslashes-append n (k ∷ []) cs)

read_quoted-quote_from :
    (n : ℕ) (value rest : Bytes)
    → read_quoted 0 (quote_from n value ++ rest) ≡ some (backslashes n value, rest)
unfolding quote_from
read_quoted-quote_from n [] rest =
    read_quoted_behind (n * 2) (b'"' ∷ []) rest ∙ read_quoted-end n rest
read_quoted-quote_from n (c ∷ cs) rest = elim (Bool-cases (c == b'\\')) [
  | inl e ↦ simp e (
      read_quoted-quote_from (suc n) cs rest
      ∙ ap (λ t. some (t, rest))
          (backslashes_later n cs
            ∙ ap (λ (k : ℕ). backslashes n (k ∷ cs)) (sym (same_character c b'\\' e))))
  | inr e ↦ elim (Bool-cases (c == b'"')) [
    | inl f ↦
        simp (e, f)
          (read_quoted_behind (n * 2 + 1) (c ∷ quote_from 0 cs) rest
            ∙ ap (λ (k : ℕ). read_quoted (n * 2 + 1) (k ∷ (quote_from 0 cs ++ rest)))
                (same_character c b'"' f)
            ∙ read_quoted-quote n (quote_from 0 cs ++ rest)
            ∙ kept n b'"' cs rest (read_quoted-quote_from 0 cs rest)
            ∙ ap (λ (k : ℕ). some (backslashes n (k ∷ cs), rest)) (sym (same_character c b'"' f)))
    | inr f ↦
        simp (e, f)
          (read_quoted_behind n (c ∷ quote_from 0 cs) rest
            ∙ read_quoted-plain n c (quote_from 0 cs ++ rest) e f
            ∙ kept n c cs rest (read_quoted-quote_from 0 cs rest))
  ]
]

-- One argument, in quotes or not; without quotes it goes on to a blank or a tabulator.
abbrev onto_plain : ℕ → Option (Bytes × Bytes) → Option (Bytes × Bytes)
onto_plain c = onto (c ∷ [])

abbrev is_separator : ℕ → Bool
is_separator c = c == 32 || c == 9

unfoldable pub read_plain : Bytes → Option (Bytes × Bytes)
read_plain [] = some ([], [])
read_plain (c ∷ cs) =
    let later = onto_plain c (read_plain cs) in
    if is_separator c then some ([], c ∷ cs) else if c == b'"' then none else later

unfoldable pub read_word : Bytes → Option (Bytes × Bytes)
read_word [] = none
read_word (c ∷ cs) = if c == b'"' then read_quoted 0 cs else read_plain (c ∷ cs)

-- An argument behind its blanks.
unfoldable pub read_argument : Bytes → Option (Bytes × Bytes)
read_argument text = read_word (skip is_separator text)

abbrev before : Bytes → Option (List Bytes) → Option (List Bytes)
before argument none = none
before argument (some arguments) = some (argument ∷ arguments)

abbrev and_more : (Bytes → Option (List Bytes)) → Option (Bytes × Bytes) → Option (List Bytes)
and_more more none = none
and_more more (some (argument, rest)) = before argument (more rest)

-- The arguments behind the name of the program.
unfoldable pub read_arguments : ℕ → Bytes → Option (List Bytes)
read_arguments fuel [] = some []
read_arguments zero (c ∷ cs) = none
read_arguments (suc fuel) (c ∷ cs) = and_more (read_arguments fuel) (read_argument (c ∷ cs))

-- A word goes on to the end of the line or to a separator.
abbrev EndsWord : Bytes → Type 0
EndsWord [] = Unit {0}
EndsWord (c ∷ cs) = is_separator c ≡ true

read_plain-append :
    (value rest : Bytes)
    → needs_quotes value ≡ false
    → EndsWord rest
    → read_plain (value ++ rest) ≡ some (value, rest)
unfolding read_plain needs_quotes
read_plain-append [] [] h e = refl
read_plain-append [] (c ∷ cs) h e = simp e refl
read_plain-append (c ∷ cs) rest h e =
    let separator : is_separator c ≡ false = ground arith in
    let quote_mark : (c == b'"') ≡ false = ground arith in
    simp (separator, quote_mark, read_plain-append cs rest (ground arith) e) refl

read_argument-quote :
    (value rest : Bytes) → read_argument (32 ∷ (quote value ++ rest)) ≡ some (value, rest)
unfolding read_argument read_word skip quote
read_argument-quote value rest = read_quoted-quote_from 0 value rest

first_plain :
    (c : ℕ) (cs : Bytes)
    → needs_quotes (c ∷ cs) ≡ false
    → (is_separator c ≡ false) × ((c == b'"') ≡ false)
unfolding needs_quotes
first_plain c cs h = ground arith

read_argument-plain :
    (value rest : Bytes)
    → is_empty value ≡ false
    → needs_quotes value ≡ false
    → EndsWord rest
    → read_argument (32 ∷ (value ++ rest)) ≡ some (value, rest)
unfolding read_argument read_word skip
read_argument-plain [] rest given h e = cc
read_argument-plain (c ∷ cs) rest given h e =
    simp ((first_plain c cs h).0, (first_plain c cs h).1) (read_plain-append (c ∷ cs) rest h e)

abbrev pub IsGiven : Bytes → Type 0
IsGiven value = is_empty value ≡ false

read_argument-quote_windows_argument :
    (value rest : Bytes)
    → IsGiven value
    → EndsWord rest
    → read_argument (32 ∷ (quote_windows_argument value ++ rest)) ≡ some (value, rest)
unfolding quote_windows_argument
read_argument-quote_windows_argument value rest given e = elim (Bool-cases (needs_quotes value)) [
  | inl q ↦ simp q (read_argument-quote value rest)
  | inr q ↦ simp q (read_argument-plain value rest given q e)
]

EndsWord-joined_by :
    (quoted : Bytes → Bytes) (arguments : List Bytes) → EndsWord (joined_by quoted arguments)
unfolding joined_by
EndsWord-joined_by quoted [] = tt
EndsWord-joined_by quoted (argument ∷ arguments) = refl

module _ (quoted : Bytes → Bytes) (Good : Bytes → Type 0)
    (reads : (value rest : Bytes)
      → Good value
      → EndsWord rest
      → read_argument (32 ∷ (quoted value ++ rest)) ≡ some (value, rest)) where
  read_arguments-joined :
      (arguments : List Bytes)
      → All Good arguments
      → read_arguments (length arguments) (joined_by quoted arguments) ≡ some arguments
  unfolding read_arguments joined_by
  read_arguments-joined [] h = refl
  read_arguments-joined (argument ∷ arguments) h =
      ap (and_more (read_arguments (length arguments)))
        (reads argument (joined_by quoted arguments) h.0 (EndsWord-joined_by quoted arguments))
      ∙ ap (before argument) (read_arguments-joined arguments h.1)

All-any : (arguments : List Bytes) → All (λ value. Unit {0}) arguments
All-any [] = tt
All-any (argument ∷ arguments) = (tt, All-any arguments)

-- Whatever the arguments that the upgrade tool hands to a program, the program reads them back from
-- its command line by the rules of Windows for quotes and backslashes.
pub read_arguments-quote :
    (arguments : List Bytes)
    → read_arguments (length arguments) (joined_by quote arguments) ≡ some arguments
read_arguments-quote arguments =
    read_arguments-joined quote (λ value. Unit {0})
      (λ value rest given e. read_argument-quote value rest) arguments (All-any arguments)

-- FFmpeg reads back the arguments that the bridge hands to it, if none of them is empty.
pub read_arguments-quote_windows_argument :
    (arguments : List Bytes)
    → All IsGiven arguments
    → read_arguments (length arguments) (joined_by quote_windows_argument arguments)
      ≡ some arguments
read_arguments-quote_windows_argument arguments given =
    read_arguments-joined quote_windows_argument IsGiven read_argument-quote_windows_argument
      arguments given
