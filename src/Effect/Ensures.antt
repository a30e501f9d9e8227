-- ===== src/Effect/Ensures.antt =====
-- Code that leads from one property of its object to another: to `Q`, which may speak of the value,
-- where it returns, and to `R`, which may speak of the
-- exception, where it throws.
use hik_hcnet_http_bridge.Common.{◌≡◌, refl, subst, Bool, true, false}
use hik_hcnet_http_bridge.Error.{
  Result, ok, err, Fault, bridge_error, client_disconnected, other_exception,
}
use hik_hcnet_http_bridge.Effect.{
  Effect, pure, after, ◌>>=◌, modify, lift, look, unless, either, rethrown, on_throw, on_part,
  caught, recovered, recovering, catching,
}
use hik_hcnet_http_bridge.Effect.Keeps.{Keeps}

-- What holds of the object and the outcome.
abbrev pub Outcome :
    {S A : Type 0} → (A → S → Type 0) → (Fault → S → Type 0) → S → Result A → Type 0
Outcome Q R s (ok a) = Q a s
Outcome Q R s (err e) = R e s

pub record Ensures {S A : Type 0} (P : S → Type 0) (m : Effect S A) (Q : A → S → Type 0)
    (R : Fault → S → Type 0) : Type 0 where
  pub at : (s : S) → P s → Outcome Q R (m s).0 (m s).1

module _ {S : Type 0} {P : S → Type 0} {R : Fault → S → Type 0} where
  pub Ensures-pure :
      {A : Type 0} {Q : A → S → Type 0} (a : A) → ((s : S) → P s → Q a s) → Ensures P (pure a) Q R
  unfolding pure
  Ensures-pure a h = record { at = h }

  pub Ensures-modify :
      {Q : Unit {0} → S → Type 0} (f : S → S)
      → ((s : S) → P s → Q tt (f s))
      → Ensures P (modify f) Q R
  unfolding modify
  Ensures-modify f h = record { at = h }

  pub Ensures-look :
      {A B : Type 0} {Q : B → S → Type 0} (field : S → A) (f : A → Effect S B)
      → ((s : S) → P s → Outcome Q R (f (field s) s).0 (f (field s) s).1)
      → Ensures P (look field f) Q R
  unfolding look
  Ensures-look field f h = record { at = h }

  -- Whatever is seen.
  pub Ensures-seen :
      {A B : Type 0} {Q : B → S → Type 0} (field : S → A) (f : A → Effect S B)
      → ((a : A) → Ensures P (f a) Q R)
      → Ensures P (look field f) Q R
  Ensures-seen field f h = Ensures-look field f (λ s p. (h (field s)).at s p)

  pub Ensures-either :
      {A : Type 0} {Q : A → S → Type 0} (test : Bool) (m n : Effect S A)
      → Ensures P m Q R
      → Ensures P n Q R
      → Ensures P (either test m n) Q R
  unfolding either
  Ensures-either true m n k l = k
  Ensures-either false m n k l = l

  pub Ensures-test :
      {A : Type 0} {Q : A → S → Type 0} (test : Bool) (m n : Effect S A)
      → (test ≡ true → Ensures P m Q R)
      → (test ≡ false → Ensures P n Q R)
      → Ensures P (either test m n) Q R
  unfolding either
  Ensures-test true m n k l = k refl
  Ensures-test false m n k l = l refl

  pub Ensures-unless :
      {Q : Unit {0} → S → Type 0} (done : Bool) (m : Effect S (Unit {0}))
      → (done ≡ true → (s : S) → P s → Q tt s)
      → (done ≡ false → Ensures P m Q R)
      → Ensures P (unless done m) Q R
  unfolding unless
  Ensures-unless true m h k = record { at = h refl }
  Ensures-unless false m h k = k refl

  pub Ensures-bind :
      {A B : Type 0} (Q : A → S → Type 0) {T : B → S → Type 0} (m : Effect S A) (f : A → Effect S B)
      → Ensures P m Q R
      → ((a : A) → Ensures (Q a) (f a) T R)
      → Ensures P (m >>= f) T R
  unfolding ◌>>=◌
  Ensures-bind {A} Q {T} m f first later = record { at = λ s h. go (m s).0 (m s).1 (first.at s h) }
    where
      go :
          (s' : S) (r : Result A) → Outcome Q R s' r → Outcome T R (after s' r f).0 (after s' r f).1
      go s' (ok a) h = (later a).at s' h
      go s' (err e) h = h

  pub Ensures-weaken :
      {A : Type 0} {Q T : A → S → Type 0} {m : Effect S A}
      → ((a : A) (s : S) → Q a s → T a s)
      → Ensures P m Q R
      → Ensures P m T R
  Ensures-weaken {A} {Q} {T} {m} weaken k = record { at = λ s h. go (m s).0 (m s).1 (k.at s h) }
    where
      go : (s' : S) (r : Result A) → Outcome Q R s' r → Outcome T R s' r
      go s' (ok a) h = weaken a s' h
      go s' (err e) h = h

  -- What is kept on every path holds behind both.
  pub Ensures-Keeps :
      {A : Type 0} (m : Effect S A)
      → Keeps P m
      → ((e : Fault) (s : S) → P s → R e s)
      → Ensures P m (λ _. P) R
  Ensures-Keeps {A} m keeps weaken = record { at = λ s h. go (m s).0 (m s).1 (keeps.at s h) }
    where
      go : (s' : S) (r : Result A) → P s' → Outcome (λ _. P) R s' r
      go s' (ok a) h = h
      go s' (err e) h = weaken e s' h

  -- A handler that throws on leaves what it makes of the object.
  pub Ensures-on_throw :
      {A : Type 0} {Q : A → S → Type 0} (T : Fault → S → Type 0) (m : Effect S A)
      (handler : Fault → S → S)
      → Ensures P m Q T
      → ((e : Fault) (s : S) → T e s → R e (handler e s))
      → Ensures P (on_throw m handler) Q R
  unfolding on_throw
  Ensures-on_throw {A} {Q} T m handler first later = record {
    at = λ s h. go (m s).0 (m s).1 (first.at s h);
  }
    where
      go :
          (s' : S) (r : Result A)
          → Outcome Q T s' r
          → Outcome Q R (rethrown s' r handler).0 (rethrown s' r handler).1
      go s' (ok a) h = h
      go s' (err e) h = later e s' h

  -- A first part that keeps the property, whatever it returns.
  pub Ensures-kept :
      {A B : Type 0} {T : B → S → Type 0} (m : Effect S A) (f : A → Effect S B)
      → Keeps P m
      → ((e : Fault) (s : S) → P s → R e s)
      → ((a : A) → Ensures P (f a) T R)
      → Ensures P (m >>= f) T R
  Ensures-kept m f keeps weaken later =
      Ensures-bind (λ _. P) m f (Ensures-Keeps m keeps weaken) later

-- What holds only where the code returns: behind an exception nothing is said.
abbrev pub Silent : {S : Type 0} → Fault → S → Type 0
Silent e s = Unit {0}

abbrev pub Any : {S : Type 0} → S → Type 0
Any s = Unit {0}

module _ {S : Type 0} {P : S → Type 0} where
  pub Ensures-Any : {A : Type 0} (m : Effect S A) → Ensures P m (λ _. Any) Silent
  Ensures-Any {A} m = record { at = λ s h. go (m s).0 (m s).1 }
    where
      go : (s' : S) (r : Result A) → Outcome (λ _. Any) Silent s' r
      go s' (ok a) = tt
      go s' (err e) = tt

  -- What does not depend on where the code starts.
  pub Ensures-anywhere :
      {A : Type 0} {Q : A → S → Type 0} {m : Effect S A}
      → Ensures Any m Q Silent
      → Ensures P m Q Silent
  Ensures-anywhere k = record { at = λ s h. k.at s tt }

  pub Ensures-skip :
      {A B : Type 0} {T : B → S → Type 0} (m : Effect S A) (f : A → Effect S B)
      → ((a : A) → Ensures Any (f a) T Silent)
      → Ensures P (m >>= f) T Silent
  Ensures-skip m f later = Ensures-bind (λ _. Any) m f (Ensures-Any m) later

  pub Ensures-lift :
      {A : Type 0} {Q : A → S → Type 0} (r : Result A)
      → ((s : S) → P s → Outcome Q Silent s r)
      → Ensures P (lift r) Q Silent
  unfolding lift
  Ensures-lift r h = record { at = h }

  -- What follows the outcome of a call that was decided elsewhere.
  pub Ensures-lifted :
      {A B : Type 0} {T : B → S → Type 0} (r : Result A) (f : A → Effect S B)
      → ((a : A) → r ≡ ok a → Ensures P (f a) T Silent)
      → Ensures P (lift r >>= f) T Silent
  unfolding lift ◌>>=◌
  Ensures-lifted (ok a) f h = record { at = (h a refl).at }
  Ensures-lifted (err e) f h = record { at = λ s p. tt }

  pub Ensures-catching :
      {A : Type 0} {Q : A → S → Type 0} (m : Effect S A) (handler : Fault → Effect S A)
      → Ensures P m Q Silent
      → ((e : Fault) → Ensures Any (handler e) Q Silent)
      → Ensures P (catching m handler) Q Silent
  unfolding catching
  Ensures-catching {A} {Q} m handler first later = record {
    at = λ s h. go (m s).0 (m s).1 (first.at s h);
  }
    where
      go :
          (s' : S) (r : Result A)
          → Outcome Q Silent s' r
          → Outcome Q Silent (caught s' r handler).0 (caught s' r handler).1
      go s' (ok a) h = h
      go s' (err (bridge_error status code)) h = (later (bridge_error status code)).at s' tt
      go s' (err client_disconnected) h = tt
      go s' (err other_exception) h = tt

  pub Ensures-ok :
      {A : Type 0} {Q : A → S → Type 0} {m : Effect S A} {s : S} {a : A}
      → Ensures P m Q Silent
      → P s
      → (m s).1 ≡ ok a
      → Q a (m s).0
  Ensures-ok {A} {Q} {m} {s} {a} k h e = subst (Outcome Q Silent (m s).0) e (k.at s h)

-- `if (!done) m`, where the object tells what is done.
pub Ensures-guarded :
    {S : Type 0} {P : S → Type 0} {R : Fault → S → Type 0} {Q : Unit {0} → S → Type 0}
    (field : S → Bool) (m : Effect S (Unit {0}))
    → ((s : S) → P s → field s ≡ true → Q tt s)
    → ((s : S) → P s → field s ≡ false → Outcome Q R (m s).0 (m s).1)
    → Ensures P (look field λ done. unless done m) Q R
unfolding look unless
Ensures-guarded {S} {P} {R} {Q} field m done undone = record { at = λ s p. go s p (field s) refl }
  where
    go : (s : S) → P s → (b : Bool) → field s ≡ b → Outcome Q R (unless b m s).0 (unless b m s).1
    go s p true e = done s p e
    go s p false e = undone s p e

-- Code that looks at a test of the object, and then knows it.
pub Ensures-known :
    {S A : Type 0} {P : S → Type 0} {R : Fault → S → Type 0} {Q : A → S → Type 0} (field : S → Bool)
    (f : Bool → Effect S A)
    → ((b : Bool) → Ensures (λ s. P s × (field s ≡ b)) (f b) Q R)
    → Ensures P (look field f) Q R
unfolding look
Ensures-known field f h = record { at = λ s p. (h (field s)).at s (p, refl) }

-- What is ensured from less is ensured from more.
pub Ensures-before :
    {S A : Type 0} {P T : S → Type 0} {R : Fault → S → Type 0} {Q : A → S → Type 0} {m : Effect S A}
    → ((s : S) → P s → T s)
    → Ensures T m Q R
    → Ensures P m Q R
Ensures-before weaken k = record { at = λ s p. k.at s (weaken s p) }

-- A call whose outcome was decided elsewhere, where an exception leaves something to say.
pub Ensures-decided :
    {S A : Type 0} {P : S → Type 0} {R : Fault → S → Type 0} {Q : A → S → Type 0} (r : Result A)
    → ((a : A) → r ≡ ok a → (s : S) → P s → Q a s)
    → ((e : Fault) (s : S) → P s → R e s)
    → Ensures P (lift r) Q R
unfolding lift
Ensures-decided (ok a) returns throws = record { at = λ s p. returns a refl s p }
Ensures-decided (err e) returns throws = record { at = λ s p. throws e s p }

-- A handler of every exception starts from what the exception leaves.
pub Ensures-recovering :
    {S A : Type 0} {P : S → Type 0} {R : Fault → S → Type 0} {Q : A → S → Type 0}
    (T : Fault → S → Type 0) (m : Effect S A) (handler : Fault → Effect S A)
    → Ensures P m Q T
    → ((e : Fault) → Ensures (T e) (handler e) Q R)
    → Ensures P (recovering m handler) Q R
unfolding recovering
Ensures-recovering {S} {A} {P} {R} {Q} T m handler first later = record {
  at = λ s h. go (m s).0 (m s).1 (first.at s h);
}
  where
    go :
        (s' : S) (r : Result A)
        → Outcome Q T s' r
        → Outcome Q R (recovered s' r handler).0 (recovered s' r handler).1
    go s' (ok a) h = h
    go s' (err e) h = (later e).at s' h

-- A fact that does not depend on the object stays.
pub Ensures-given :
    {S A X : Type 0} {P : S → Type 0} {R : Fault → S → Type 0} {Q : A → S → Type 0} {m : Effect S A}
    → Ensures P m Q R
    → Ensures (λ s. P s × X) m (λ a s. Q a s × X) R
Ensures-given {S} {A} {X} {P} {R} {Q} {m} k = record {
  at = λ s h. go (m s).0 (m s).1 h.1 (k.at s h.0);
}
  where
    go : (s' : S) (r : Result A) → X → Outcome Q R s' r → Outcome (λ a s. Q a s × X) R s' r
    go s' (ok a) x h = (h, x)
    go s' (err e) x h = h

-- What holds behind an exception may be weakened.
pub Ensures-excused :
    {S A : Type 0} {P : S → Type 0} {R T : Fault → S → Type 0} {Q : A → S → Type 0} {m : Effect S A}
    → ((e : Fault) (s : S) → R e s → T e s)
    → Ensures P m Q R
    → Ensures P m Q T
Ensures-excused {S} {A} {P} {R} {T} {Q} {m} weaken k = record {
  at = λ s h. go (m s).0 (m s).1 (k.at s h);
}
  where
    go : (s' : S) (r : Result A) → Outcome Q R s' r → Outcome Q T s' r
    go s' (ok a) h = h
    go s' (err e) h = weaken e s' h

-- Code that never throws has a value.
pub Ensures-total :
    {S A : Type 0} {P : S → Type 0} {Q : A → S → Type 0} {m : Effect S A} (s : S)
    → Ensures P m Q (λ e s. ⊥)
    → P s
    → (a : A) × ((m s).1 ≡ ok a) × Q a (m s).0
Ensures-total {S} {A} {P} {Q} {m} s k h = go (m s).1 refl (k.at s h)
  where
    go :
        (r : Result A)
        → (m s).1 ≡ r
        → Outcome Q (λ e s. ⊥) (m s).0 r
        → (a : A) × ((m s).1 ≡ ok a) × Q a (m s).0
    go (ok a) e q = (a, e, q)
    go (err e) f q = absurd q

-- Code that works on a part: the rest of the object is as it was.
pub Ensures-on_part :
    {S T A : Type 0} {P : S → Type 0} {Q : A → S → Type 0} {R : Fault → S → Type 0}
    (E : S → T → Type 0) (F : S → A → T → Type 0) (G : S → Fault → T → Type 0) (part : S → T)
    (put : T → S → S) (m : Effect T A)
    → ((s : S) → Ensures (E s) m (F s) (G s))
    → ((s : S) → P s → E s (part s))
    → ((s : S) (a : A) (x : T) → P s → F s a x → Q a (put x s))
    → ((s : S) (e : Fault) (x : T) → P s → G s e x → R e (put x s))
    → Ensures P (on_part part put m) Q R
unfolding on_part
Ensures-on_part {S} {T} {A} {P} {Q} {R} E F G part put m k enters returns throws = record {
  at = λ s h. go s h (m (part s)).0 (m (part s)).1 ((k s).at (part s) (enters s h));
}
  where
    go : (s : S) → P s → (x : T) (r : Result A) → Outcome (F s) (G s) x r → Outcome Q R (put x s) r
    go s h x (ok a) f = returns s a x h f
    go s h x (err e) f = throws s e x h f
