-- ===== src/Sessions.antt =====
-- The registry of running video sessions: class SessionRegistry of
-- cpp-sdk-http-bridge-linux/src/main.cpp, with its State, Lease and Counts. Every method holds the
-- mutex, so each is one step. A shared_ptr<State> is told apart by a number, its address.
pub mod Invariant
pub mod Cleaning
pub mod Slots
pub mod Tokens
use hik_hcnet_http_bridge.Common.{
  ℕ, ◌+◌, ◌-◌, ◌%◌, ◌^◌, Bool, true, false, ◌&&◌, ◌||◌, not, List, [], ◌∷◌, ◌++◌, Option, none,
  some, leb, ltb, ◌==◌, if◌then◌else◌, length, is_empty, keep, count_if,
}
use hik_hcnet_http_bridge.Text.{Bytes, codes, equal}
use hik_hcnet_http_bridge.Text.Decimal.{to_string}
use hik_hcnet_http_bridge.Error.{Result, ok, throw, manual_restart_required}

pub record State : Type 0 where
  pub address : ℕ
  pub sid : Bytes
  -- `none` is invalid_socket
  pub fd : Option ℕ
  pub generation : Bytes
  pub cancelled : Bool

pub record SessionRegistry : Type 0 where
  pub maximum : ℕ
  pub states : List State
  pub epoch : Bytes
  pub generation : Bytes
  pub sequence : ℕ
  pub cleaned : Bool
  -- an address that no state has had
  pub next_address : ℕ

-- `epoch_ + "-" + std::to_string(sequence)`
unfoldable pub token : Bytes → ℕ → Bytes
token epoch sequence = epoch ++ b'-' ∷ to_string sequence

unfoldable pub new_registry : ℕ → Bytes → SessionRegistry
unfolding token
new_registry maximum epoch = record {
  maximum = maximum;
  states = [];
  epoch = epoch;
  generation = token epoch 0;
  sequence = 0;
  cleaned = false;
  next_address = 0;
}

-- The client's token does not fit: it is missing after a cleanup, or it is not the current one.
abbrev pub is_stale : SessionRegistry → Bytes → Bool
is_stale r generation =
    (is_empty generation && r.cleaned)
    || (not (is_empty generation) && not (equal generation r.generation))

abbrev pub new_state : SessionRegistry → Bytes → Option ℕ → State
new_state r sid fd = record {
  address = r.next_address;
  sid = sid;
  fd = fd;
  generation = r.generation;
  cancelled = false;
}

-- `none` is the null lease: no slot is free. The caller runs its `initialize` exactly if there is a
-- lease.
unfoldable pub reserve :
    SessionRegistry → Bytes → Option ℕ → Bytes → Result (SessionRegistry × Option State)
reserve r sid fd generation =
    if is_stale r generation
    then throw 409 manual_restart_required
    else if leb r.maximum (length r.states)
    then ok (r, none)
    else ok (
      record r { states = r.states ++ new_state r sid fd ∷ []; next_address = r.next_address + 1 },
      some (new_state r sid fd),
    )

-- What the loop of clean leaves: the states, the statuses that `mark` changes, the count, and the
-- sockets that it shut down, in order.
pub record Cleaned {ℓ} (S : Type ℓ) : Type ℓ where
  pub states : List State
  pub statuses : S
  pub affected : ℕ
  pub shut : List ℕ

abbrev pub socket_of : Option ℕ → List ℕ
socket_of none = []
socket_of (some fd) = fd ∷ []

module _ {ℓ} {S : Type ℓ} (mark : Bytes → S → S) where
  unfoldable pub clean_states : List State → S → Cleaned S
  clean_states [] statuses = record { states = []; statuses = statuses; affected = 0; shut = [] }
  clean_states (state ∷ states) statuses =
      let skipped = clean_states states statuses in
      let rest = clean_states states (mark state.sid statuses) in
      if state.cancelled then record skipped { states = state ∷ skipped.states } else record {
        states = record state { cancelled = true } ∷ rest.states;
        statuses = rest.statuses;
        affected = rest.affected + 1;
        shut = socket_of state.fd ++ rest.shut;
      }

  unfoldable pub clean : SessionRegistry → S → SessionRegistry × Cleaned S
  unfolding clean_states token
  clean r statuses =
      let sequence = (r.sequence + 1) % 2 ^ 64 in
      let swept = clean_states r.states statuses in
      (
        record r {
          generation = token r.epoch sequence;
          sequence = sequence;
          cleaned = true;
          states = swept.states;
        },
        swept,
      )

-- The lease's destructor.
unfoldable pub release : SessionRegistry → ℕ → SessionRegistry
release r address = record r { states = keep (λ (s : State). not (s.address == address)) r.states }

pub record Counts : Type 0 where
  pub active : ℕ
  pub maximum : ℕ
  pub available : ℕ

unfoldable pub counts : SessionRegistry → Counts
counts r = record {
  active = length r.states;
  maximum = r.maximum;
  available = r.maximum - length r.states;
}

unfoldable pub cleaning : SessionRegistry → ℕ
cleaning r = count_if (λ s. s.cancelled) r.states
