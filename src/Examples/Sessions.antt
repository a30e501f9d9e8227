-- ===== src/Examples/Sessions.antt =====
-- The registry of sessions, on concrete inputs.
use hik_hcnet_http_bridge.Common.{◌+◌, ◌≡◌, refl, false, List, [], ◌∷◌, none, some, arith}
use hik_hcnet_http_bridge.Text.{Bytes, codes, equal}
use hik_hcnet_http_bridge.Text.Decimal.{digits, to_string}
use hik_hcnet_http_bridge.Error.{ok, err, bridge_error, manual_restart_required}
use hik_hcnet_http_bridge.Sessions.{
  token, State, SessionRegistry, new_registry, reserve, release, counts,
}
use hik_hcnet_http_bridge.Sessions.Invariant.{
  IsValid, Step, reserves, cleans, releases, step, history, history-IsValid,
}
use hik_hcnet_http_bridge.Sessions.Tokens.{reserve-clean_stale}
use hik_hcnet_http_bridge.Sessions.Slots.{release-reserve}

abbrev steps : List Step
steps = reserves (codes "a") (some 7) [] ∷ cleans ∷ reserves (codes "b") none [] ∷ releases 0 ∷ []

history-IsValid_example : IsValid (history (new_registry 4 (codes "e")) steps)
history-IsValid_example = history-IsValid 4 (codes "e") steps

abbrev first_state : State
first_state = record {
  address = 0;
  sid = codes "a";
  fd = some 7;
  generation = codes "e-0";
  cancelled = false;
}

abbrev pub registry : SessionRegistry
registry = record {
  maximum = 2;
  states = first_state ∷ [];
  epoch = codes "e";
  generation = codes "e-0";
  sequence = 0;
  cleaned = false;
  next_address = 1;
}

pub registry-IsValid : IsValid registry
unfolding token digits to_string
registry-IsValid = record {
  capacity = omega arith;
  current_token = refl;
  current = (record { old_address = omega arith; same_token = λ _. refl }, tt);
  distinct = (tt, tt);
}

-- The token of the first counting.
abbrev old_token : Bytes
old_token = registry.generation

reserve-clean_stale_example :
    (reserve (history (step registry cleans) steps) (codes "a") none old_token
      ≡ err (bridge_error 409 manual_restart_required))
    × (reserve (history (step registry cleans) steps) (codes "a") none []
        ≡ err (bridge_error 409 manual_restart_required))
reserve-clean_stale_example =
    reserve-clean_stale registry steps (codes "a") none registry-IsValid (omega arith)

abbrev second_state : State
second_state = record {
  address = 1;
  sid = codes "b";
  fd = none;
  generation = codes "e-0";
  cancelled = false;
}

abbrev pub both : SessionRegistry
both = record registry { states = first_state ∷ second_state ∷ []; next_address = 2 }

reserve_second : reserve registry (codes "b") none (codes "e-0") ≡ ok (both, some second_state)
unfolding reserve equal
reserve_second = refl

release-reserve_example :
    ((counts both).active ≡ (counts registry).active + 1)
    × ((counts both).available + 1 ≡ (counts registry).available)
    × (second_state.generation ≡ registry.generation)
    × (second_state.cancelled ≡ false)
    × ((release both second_state.address).states ≡ registry.states)
    × (counts (release both second_state.address) ≡ counts registry)
release-reserve_example =
    release-reserve registry (codes "b") none (codes "e-0") registry-IsValid reserve_second
