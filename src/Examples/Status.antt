-- ===== src/Examples/Status.antt =====
-- The statuses of sessions and a cleanup, on concrete inputs.
use hik_hcnet_http_bridge.Common.{ℕ, ◌≡◌, refl, List, [], ◌∷◌, arith, length, map}
use hik_hcnet_http_bridge.Text.{Bytes, codes, equal}
use hik_hcnet_http_bridge.Dict.{lookup}
use hik_hcnet_http_bridge.EndReason.{client_replaced, manual_cleanup}
use hik_hcnet_http_bridge.Sessions.{clean, counts, cleaning}
use hik_hcnet_http_bridge.Sessions.Cleaning.{clean_lem, cancel, live, mark_all, sockets}
use hik_hcnet_http_bridge.Status.{Now, SessionStatus, Statuses, new_status, QueueReport, set_ended}
use hik_hcnet_http_bridge.Status.Sticky.{
  Event, ends, outputs, apply_all, IsManual, apply_all-IsManual,
}
use hik_hcnet_http_bridge.Examples.Sessions.{both}

-- A clock at `n` nanoseconds.
abbrev pub at : ℕ → Now
at n = record { steady = n; utc = 1700000000 }

-- A cleanup marks a session as ended by it.
abbrev mark : Bytes → Statuses → Statuses
mark sid items = set_ended (at 50) sid manual_cleanup [] no_queue items
  where
    no_queue : QueueReport
    no_queue = record { current = 0; peak = 0; backpressure = 0 }

clean_lem_example :
    let (r', swept) = clean mark both [] in
    (r'.states ≡ map cancel both.states)
    × (cleaning r' ≡ length both.states)
    × (counts r' ≡ counts both)
    × (swept.affected ≡ length (live both.states))
    × (swept.statuses ≡ mark_all mark (live both.states) [])
    × (swept.shut ≡ sockets (live both.states))
clean_lem_example = clean_lem mark both []

abbrev ended_value : SessionStatus
ended_value = record (new_status (codes "a") (at 50)) {
  status = codes "ended";
  end_reason = codes "manual_cleanup";
}

abbrev marked : Statuses
marked = (codes "a", ended_value) ∷ []

marked-IsManual : IsManual (codes "a") 50 marked
unfolding lookup equal
marked-IsManual = record {
  value = ended_value;
  there = refl;
  reason = refl;
  since = omega arith;
  unique = (refl, tt);
}

abbrev report : QueueReport
report = record { current = 3; peak = 9; backpressure = 1 }

-- The stream's own end comes after the cleanup.
abbrev events : List (Now × Event)
events = (at 60, ends (codes "a") client_replaced [] report) ∷ (at 70, outputs (codes "a")) ∷ []

apply_all-IsManual_example : IsManual (codes "a") 50 (apply_all events marked)
apply_all-IsManual_example =
    apply_all-IsManual events (codes "a") 50 marked
      (((λ h. cc h), omega arith, omega arith), (((λ h. cc h), omega arith, omega arith), tt))
      marked-IsManual
