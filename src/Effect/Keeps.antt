-- ===== src/Effect/Keeps.antt =====
-- Code that keeps a property of its object, whether it returns or throws: a rule for each way to
-- build it. Looking at the object and testing what was seen is one rule, which gives the test.
use hik_hcnet_http_bridge.Common.{Bool, true, false, Option, none, some}
use hik_hcnet_http_bridge.Error.{
  Result, ok, err, Fault, bridge_error, client_disconnected, other_exception,
}
use hik_hcnet_http_bridge.Effect.{
  Effect, pure, after, ◌>>=◌, modify, lift, look, check, unless, either, caught, catching, rethrown,
  on_throw,
}

pub record Keeps {S A : Type 0} (P : S → Type 0) (m : Effect S A) : Type 0 where
  pub at : (s : S) → P s → P (m s).0

module _ {S : Type 0} {P : S → Type 0} where
  pub Keeps-pure : {A : Type 0} (a : A) → Keeps P (pure a)
  unfolding pure
  Keeps-pure a = record { at = λ s h. h }

  pub Keeps-lift : {A : Type 0} (r : Result A) → Keeps P (lift r)
  unfolding lift
  Keeps-lift r = record { at = λ s h. h }

  pub Keeps-check : (e : Option Fault) → Keeps P (check e)
  unfolding check
  Keeps-check none = record { at = λ s h. h }
  Keeps-check (some e) = record { at = λ s h. h }

  pub Keeps-modify : (f : S → S) → ((s : S) → P s → P (f s)) → Keeps P (modify f)
  unfolding modify
  Keeps-modify f h = record { at = h }

  pub Keeps-look :
      {A B : Type 0} (field : S → A) (f : A → Effect S B)
      → ((a : A) → Keeps P (f a))
      → Keeps P (look field f)
  unfolding look
  Keeps-look field f h = record { at = λ s p. (h (field s)).at s p }

  -- What follows keeps the property that holds when it is reached.
  pub Keeps-behind :
      {A B : Type 0} (m : Effect S A) (f : A → Effect S B) (s : S)
      → P (m s).0
      → ((a : A) → Keeps P (f a))
      → P ((m >>= f) s).0
  unfolding ◌>>=◌
  Keeps-behind {A} {B} m f s h later = go (m s).0 (m s).1 h
    where
      go : (s' : S) (r : Result A) → P s' → P (after s' r f).0
      go s' (ok a) h = (later a).at s' h
      go s' (err e) h = h

  pub Keeps-bind :
      {A B : Type 0} (m : Effect S A) (f : A → Effect S B)
      → Keeps P m
      → ((a : A) → Keeps P (f a))
      → Keeps P (m >>= f)
  Keeps-bind m f keeps later = record { at = λ s h. Keeps-behind m f s (keeps.at s h) later }

  pub Keeps-unless : (done : Bool) (m : Effect S (Unit {0})) → Keeps P m → Keeps P (unless done m)
  unfolding unless
  Keeps-unless true m keeps = record { at = λ s h. h }
  Keeps-unless false m keeps = keeps

  pub Keeps-either :
      {A : Type 0} (test : Bool) (m n : Effect S A)
      → Keeps P m
      → Keeps P n
      → Keeps P (either test m n)
  unfolding either
  Keeps-either true m n k l = k
  Keeps-either false m n k l = l

  pub Keeps-catching :
      {A : Type 0} (m : Effect S A) (handler : Fault → Effect S A)
      → Keeps P m
      → ((e : Fault) → Keeps P (handler e))
      → Keeps P (catching m handler)
  unfolding catching
  Keeps-catching {A} m handler k l = record { at = λ s h. go (m s).0 (m s).1 (k.at s h) }
    where
      go : (s' : S) (r : Result A) → P s' → P (caught s' r handler).0
      go s' (ok a) h = h
      go s' (err (bridge_error status code)) h = (l (bridge_error status code)).at s' h
      go s' (err client_disconnected) h = h
      go s' (err other_exception) h = h

pub ruleset keeps_rules = (
  Keeps-pure, Keeps-lift, Keeps-check, Keeps-look, Keeps-bind, Keeps-unless, Keeps-either,
  Keeps-catching,
)

-- A handler that throws on keeps what holds behind the code.
pub behind-on_throw :
    {S A : Type 0} {P : S → Type 0} (m : Effect S A) (handler : Fault → S → S) (s : S)
    → P (m s).0
    → ((e : Fault) (s' : S) → P s' → P (handler e s'))
    → P (on_throw m handler s).0
unfolding on_throw
behind-on_throw {S} {A} {P} m handler s h keeps = go (m s).0 (m s).1 h
  where
    go : (s' : S) (r : Result A) → P s' → P (rethrown s' r handler).0
    go s' (ok a) h = h
    go s' (err e) h = keeps e s' h
