-- ===== src/Status.antt =====
-- What the bridge remembers of a session for its browser: SessionStatus and SessionStatusRegistry
-- of cpp-sdk-http-bridge-linux/src/main.cpp. Every method holds the mutex, so each is one step.
-- The steady clock is read in nanoseconds and the wall clock in seconds, both once for each step.
pub mod Sticky
use hik_hcnet_http_bridge.Common.{
  ℕ, zero, suc, ◌+◌, ◌-◌, ◌*◌, ◌/◌, Bool, not, List, [], ◌∷◌, Option, none, some, leb, ltb,
  if◌then◌else◌, ℤ, pos, negsuc, has_value,
}
use hik_hcnet_http_bridge.Text.{Bytes, codes, equal}
use hik_hcnet_http_bridge.Dict.{Dict, lookup, insert, retain}
use hik_hcnet_http_bridge.EndReason.{StreamEndReason, end_reason_name}

pub record Now : Type 0 where
  pub steady : ℕ
  pub utc : ℕ

pub record SessionStatus : Type 0 where
  pub sid : Bytes
  pub status : Bytes
  pub end_reason : Bytes
  pub message : Bytes
  pub queue_current_bytes : ℕ
  pub queue_peak_bytes : ℕ
  pub backpressure_events : ℕ
  pub updated : ℕ
  pub started : ℕ
  pub output_ready : Option ℕ
  pub browser_first_frame : Option ℕ
  pub output_ready_utc : Option ℕ
  pub browser_first_frame_utc : Option ℕ
  pub browser_client_elapsed_ms : ℤ
  pub updated_utc : ℕ

-- `SessionStatus{sid}`
abbrev pub new_status : Bytes → Now → SessionStatus
new_status sid now = record {
  sid = sid;
  status = codes "active";
  end_reason = codes "active";
  message = [];
  queue_current_bytes = 0;
  queue_peak_bytes = 0;
  backpressure_events = 0;
  updated = now.steady;
  started = now.steady;
  output_ready = none;
  browser_first_frame = none;
  output_ready_utc = none;
  browser_first_frame_utc = none;
  browser_client_elapsed_ms = pos 0;
  updated_utc = now.utc;
}

abbrev pub Statuses : Type 0
Statuses = Dict SessionStatus

-- ten minutes
abbrev pub lifetime : ℕ
lifetime = 600 * 1000000000

-- `updated < now - 10min` fails.
abbrev pub is_recent : Now → SessionStatus → Bool
is_recent now value = not (ltb (value.updated + lifetime) now.steady)

unfoldable pub cleanup : Now → Statuses → Statuses
cleanup now items = retain (is_recent now) items

unfoldable pub set_active : Now → Bytes → Statuses → Statuses
unfolding cleanup
set_active now sid items = insert sid (new_status sid now) (cleanup now items)

abbrev pub manual : Bytes
manual = codes "manual_cleanup"

-- The numbers that come with the end of a session: the queue's bytes, their peak, the waits.
pub record QueueReport : Type 0 where
  pub current : ℕ
  pub peak : ℕ
  pub backpressure : ℕ

abbrev ended : Now → Bytes → StreamEndReason → Bytes → QueueReport → SessionStatus → SessionStatus
ended now sid reason message report value = record value {
  sid = sid;
  status = codes "ended";
  end_reason = end_reason_name reason;
  message = message;
  queue_current_bytes = report.current;
  queue_peak_bytes = report.peak;
  backpressure_events = report.backpressure;
  updated = now.steady;
  updated_utc = now.utc;
}

-- The entry that set_ended changes: the one that is there, or `SessionStatus{}`.
abbrev pub existing_or_new : Now → Option SessionStatus → SessionStatus
existing_or_new now none = new_status [] now
existing_or_new now (some value) = value

unfoldable pub set_ended : Now → Bytes → StreamEndReason → Bytes → QueueReport → Statuses → Statuses
unfolding cleanup
set_ended now sid reason message report items =
    let kept = cleanup now items in
    let value = existing_or_new now (lookup sid kept) in
    if equal value.end_reason manual
    then kept
    else insert sid (ended now sid reason message report value) kept

-- A change of the entry, where there is one.
abbrev change : Option SessionStatus → Bytes → (SessionStatus → SessionStatus) → Statuses → Statuses
change none sid f items = items
change (some value) sid f items = insert sid (f value) items

abbrev with_output : Now → SessionStatus → SessionStatus
with_output now value = record value {
  output_ready = some now.steady;
  updated = now.steady;
  output_ready_utc = some now.utc;
  updated_utc = now.utc;
}

unfoldable pub set_output_ready : Now → Bytes → Statuses → Statuses
set_output_ready now sid items = change (lookup sid items) sid (with_output now) items

abbrev pub or_now : Option ℕ → ℕ → ℕ
or_now none now = now
or_now (some t) now = t

abbrev pub with_first_frame : Now → ℤ → SessionStatus → SessionStatus
with_first_frame now elapsed value = record value {
  browser_first_frame = some (or_now value.browser_first_frame now.steady);
  browser_first_frame_utc =
      if has_value value.browser_first_frame then value.browser_first_frame_utc else some now.utc;
  browser_client_elapsed_ms = elapsed;
  updated = now.steady;
  updated_utc = now.utc;
}

negated : ℕ → ℤ
negated zero = pos 0
negated (suc n) = negsuc n

-- duration_cast<milliseconds>(to - from), which rounds towards zero
ms_between : ℕ → ℕ → ℤ
unfolding negated
ms_between from to =
    if leb from to then pos ((to - from) / 1000000) else negated ((from - to) / 1000000)

ms_from : Option ℕ → ℕ → ℤ
unfolding ms_between
ms_from none to = negsuc 0
ms_from (some from) to = ms_between from to

timing : Option SessionStatus → Now → Option (ℤ × ℤ)
unfolding ms_between ms_from
timing none now = none
timing (some value) now =
    let frame = or_now value.browser_first_frame now.steady in
    some (ms_between value.started frame, ms_from value.output_ready frame)

-- Also the time from the start, and that from the first output, to the first frame.
unfoldable pub set_browser_first_frame : Now → Bytes → ℤ → Statuses → Statuses × Option (ℤ × ℤ)
unfolding timing
set_browser_first_frame now sid elapsed items = (
  change (lookup sid items) sid (with_first_frame now elapsed) items,
  timing (lookup sid items) now,
)

-- The lookup also drops old entries.
unfoldable pub get : Now → Bytes → Statuses → Statuses × Option SessionStatus
unfolding cleanup
get now sid items = (cleanup now items, lookup sid (cleanup now items))
