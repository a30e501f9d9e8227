-- ===== src/Device/Stream.antt =====
-- The packets of a session: accept_data and complete_playback of class HcSession in
-- cpp-sdk-http-bridge-linux/src/main.cpp.
use hik_hcnet_http_bridge.Common.{
  ◌+◌, ◌%◌, ◌^◌, ◌≡◌, refl, Bool, true, false, ◌||◌, not, List, [], ◌∷◌, Option, none, some, arith,
  if◌then◌else◌, length, is_empty, Bool-cases, ◌⊎◌, inl, inr,
}
use hik_hcnet_http_bridge.Text.{Bytes}
use hik_hcnet_http_bridge.EndReason.{StreamEndReason, active, is_active, queue_overflow}
use hik_hcnet_http_bridge.MediaQueue.{
  ByteQueue, closes, run_sections, Wait, push, close, enters, fits, push_loop, run_section, admit,
}
use hik_hcnet_http_bridge.Device.{HcSession}

-- The kinds of data that the SDK hands over.
pub data DataType : Type 0 where
  syshead streamdata std_videodata other : DataType

abbrev is_known : DataType → Bool
is_known other = false
is_known _ = true

abbrev is_header : DataType → Bool
is_header syshead = true
is_header _ = false

-- What happens to the session while push waits for room: the turns of the wait, and the cause that
-- another thread may store as the end's reason meanwhile.
pub record Meanwhile : Type 0 where
  pub waits : List Wait
  pub ended : Option StreamEndReason

abbrev or_reason : Option StreamEndReason → StreamEndReason → StreamEndReason
or_reason none reason = reason
or_reason (some cause) reason = cause

abbrev counted : DataType → Bytes → HcSession → HcSession
counted type packet s = record s {
  sdk_bytes = (s.sdk_bytes + length packet) % 2 ^ 64;
  header_packets = if is_header type then (s.header_packets + 1) % 2 ^ 64 else s.header_packets;
  media_packets = if is_header type then s.media_packets else (s.media_packets + 1) % 2 ^ 64;
}

-- Behind the push: its answer decides.
pushed : DataType → Meanwhile → HcSession → ByteQueue × Bool → HcSession
pushed type m s (q, true) = record s {
  queue = q;
  end_reason = or_reason m.ended s.end_reason;
  first_data = s.first_data || not (is_header type);
}
pushed type m s (q, false) = record s {
  queue = close q;
  overflow = true;
  end_reason = queue_overflow;
}

unfoldable pub accept_data : DataType → Bytes → Meanwhile → HcSession → HcSession
unfolding pushed
accept_data type packet m s =
    if s.stopped || is_empty packet || not (is_known type) || not (is_active s.end_reason)
    then s
    else pushed type m (counted type packet s) (push s.queue packet m.waits)

-- complete_playback: the first cause stays.
unfoldable pub complete_playback : StreamEndReason → HcSession → HcSession
complete_playback reason s =
    if is_active s.end_reason then record s { end_reason = reason; queue = close s.queue } else s

-- A packet that comes in either is put into the queue, or ends the session as an overflow and
-- closes the queue.
abbrev pub Accepts : Bytes → Meanwhile → HcSession → HcSession → Type 0
Accepts packet m s s' =
    ((push s.queue packet m.waits).1 ≡ true)
      × (s'.queue ≡ (push s.queue packet m.waits).0)
      × (s'.overflow ≡ s.overflow)
    ⊎ ((push s.queue packet m.waits).1 ≡ false)
      × (s'.queue ≡ close (push s.queue packet m.waits).0)
      × (s'.overflow ≡ true)
      × (s'.end_reason ≡ queue_overflow)

pushed-Accepts :
    (type : DataType) (packet : Bytes) (m : Meanwhile) (s : HcSession) (r : ByteQueue × Bool)
    → push s.queue packet m.waits ≡ r
    → Accepts packet m s (pushed type m (counted type packet s) r)
unfolding pushed
pushed-Accepts type packet m s (q, true) e = inl (rw e, rw e, refl)
pushed-Accepts type packet m s (q, false) e = inr (rw e, rw e, refl, refl)

-- Data from the SDK changes a session only while it runs: a packet of a stopped or ended session, an
-- empty one or one of another kind changes nothing; any other is put into the queue, or ends the
-- session as an overflow and closes the queue.
pub accept_data_lem :
    (type : DataType) (packet : Bytes) (m : Meanwhile) (s : HcSession)
    → (accept_data type packet m s ≡ s)
      ⊎ (s.stopped ≡ false)
        × (is_active s.end_reason ≡ true)
        × Accepts packet m s (accept_data type packet m s)
unfolding accept_data
accept_data_lem type packet m s =
    let skips : Bool =
      s.stopped || is_empty packet || not (is_known type) || not (is_active s.end_reason) in
    elim (Bool-cases skips) [
      | inl e ↦ inl (simp e)
      | inr e ↦ inr (
        ground arith,
        ground arith,
        simp e (pushed-Accepts type packet m s (push s.queue packet m.waits) refl),
      )
    ]

-- A playback that ends by `cause` while a packet waits for room in a full queue is recorded as an
-- overflow all the same: the refused push overwrites the cause that stands there.
pub accept_data_overwrites :
    (type : DataType) (packet : Bytes) (cause : StreamEndReason) (s : HcSession)
    → s.stopped ≡ false
    → s.end_reason ≡ active
    → is_known type ≡ true
    → enters s.queue packet ≡ true
    → fits s.queue packet ≡ false
    → (accept_data type packet
        (record {
          waits = record { expired = false; others = closes ∷ [] } ∷ [];
          ended = some cause;
        })
        s).end_reason
      ≡ queue_overflow
unfolding accept_data push push_loop run_sections run_section admit
accept_data_overwrites type packet cause s running is_on known new full = ground arith
