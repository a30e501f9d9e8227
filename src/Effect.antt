-- ===== src/Effect.antt =====
-- Code that changes an object and may throw: the object is what it has become, also behind an
-- exception. The children have the rules by which a property of the object is followed through it.
pub mod Keeps
pub mod Ensures
use hik_hcnet_http_bridge.Common.{Bool, true, false, Option, none, some}
use hik_hcnet_http_bridge.Error.{Result, ok, err, Fault, bridge_error}

abbrev pub Effect : Type 0 → Type 0 → Type 0
Effect S A = S → S × Result A

module _ {S : Type 0} where
  unfoldable pub pure : {A : Type 0} → A → Effect S A
  pure a s = (s, ok a)

  abbrev pub after : {A B : Type 0} → S → Result A → (A → Effect S B) → S × Result B
  after s (ok a) f = f a s
  after s (err e) f = (s, err e)

  infixl 5 ◌>>=◌ ◌>>◌
  unfoldable pub ◌>>=◌ : {A B : Type 0} → Effect S A → (A → Effect S B) → Effect S B
  ◌>>=◌ m f s = after (m s).0 (m s).1 f

  abbrev pub ◌>>◌ : {B : Type 0} → Effect S (Unit {0}) → Effect S B → Effect S B
  m >> k = m >>= λ _. k

  unfoldable pub modify : (S → S) → Effect S (Unit {0})
  modify f s = (f s, ok tt)

  -- A call whose outcome is decided elsewhere.
  unfoldable pub lift : {A : Type 0} → Result A → Effect S A
  lift r s = (s, r)

  -- Code that looks at the object first.
  unfoldable pub look : {A B : Type 0} → (S → A) → (A → Effect S B) → Effect S B
  look field f s = f (field s) s

  -- A checkpoint: the exception that it throws, if any.
  unfoldable pub check : Option Fault → Effect S (Unit {0})
  check none s = (s, ok tt)
  check (some e) s = (s, err e)

  -- `if (!done) m`
  unfoldable pub unless : Bool → Effect S (Unit {0}) → Effect S (Unit {0})
  unless true m s = (s, ok tt)
  unless false m s = m s

  -- `if (test) m else n`
  unfoldable pub either : {A : Type 0} → Bool → Effect S A → Effect S A → Effect S A
  either true m n = m
  either false m n = n

  abbrev pub caught : {A : Type 0} → S → Result A → (Fault → Effect S A) → S × Result A
  caught s (err (bridge_error status code)) handler = handler (bridge_error status code) s
  caught s r handler = (s, r)

  -- catch (const BridgeError&)
  unfoldable pub catching : {A : Type 0} → Effect S A → (Fault → Effect S A) → Effect S A
  catching m handler s = caught (m s).0 (m s).1 handler

  abbrev pub recovered : {A : Type 0} → S → Result A → (Fault → Effect S A) → S × Result A
  recovered s (ok a) handler = (s, ok a)
  recovered s (err e) handler = handler e s

  -- catch (const std::exception&)
  unfoldable pub recovering : {A : Type 0} → Effect S A → (Fault → Effect S A) → Effect S A
  recovering m handler s = recovered (m s).0 (m s).1 handler

  -- catch (...) { ...; throw; }
  abbrev pub rethrown : {A : Type 0} → S → Result A → (Fault → S → S) → S × Result A
  rethrown s (ok a) handler = (s, ok a)
  rethrown s (err e) handler = (handler e s, err e)

  unfoldable pub on_throw : {A : Type 0} → Effect S A → (Fault → S → S) → Effect S A
  on_throw m handler s = rethrown (m s).0 (m s).1 handler

  -- Code that works on a part of the object.
  unfoldable pub on_part : {T A : Type 0} → (S → T) → (T → S → S) → Effect T A → Effect S A
  on_part part put m s = (put (m (part s)).0 s, (m (part s)).1)
