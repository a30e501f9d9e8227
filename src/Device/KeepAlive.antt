-- ===== src/Device/KeepAlive.antt =====
-- The thread that watches a playback: send_playback_keep_alive and the loop of start_playback in
-- class HcSession of cpp-sdk-http-bridge-linux/src/main.cpp.
use hik_hcnet_http_bridge.Common.{
  ℕ, ◌+◌, ◌<◌, ◌≡◌, refl, ap, ◌∙◌, Bool, true, false, ◌||◌, not, List, [], ◌∷◌, arith, leb, ltb,
  ◌==◌, if◌then◌else◌, ◌⊎◌, inl, inr,
}
use hik_hcnet_http_bridge.EndReason.{
  active, is_active, playback_end, playback_position_error, sdk_keep_alive_failed,
}
use hik_hcnet_http_bridge.Device.{HcSession}
use hik_hcnet_http_bridge.Device.Stream.{complete_playback}

-- `answer` is what NET_DVR_PlayBackControl_V40 says.
unfoldable pub send_playback_keep_alive : Bool → HcSession → HcSession
unfolding complete_playback
send_playback_keep_alive answer s =
    let failures = s.keep_alive_failures + 1 in
    let failed = record s { keep_alive_failures = failures } in
    if answer
    then record s { keep_alive_failures = 0 }
    else if leb 3 failures
    then complete_playback sdk_keep_alive_failed failed
    else failed

-- The times, in milliseconds, at which the loop acts next.
pub record Monitor : Type 0 where
  pub session : HcSession
  pub next_position_check : ℕ
  pub next_keep_alive : ℕ
  pub running : Bool

-- One turn behind the sleep: the time, and what the SDK answers if it is asked.
pub record Tick : Type 0 where
  pub now : ℕ
  pub keep_alive : Bool
  pub position : ℕ

check_position : Tick → Monitor → Monitor
check_position t m =
    if t.position == 100
    then record m { session = complete_playback playback_end m.session; running = false }
    else if t.position == 200
    then record m { session = complete_playback playback_position_error m.session; running = false }
    else m

-- The part of the turn behind the keep-alive.
watch_position : Tick → Monitor → Monitor
unfolding check_position
watch_position t m =
    if ltb t.now m.next_position_check
    then m
    else check_position t (record m { next_position_check = t.now + 500 })

after_keep_alive : Tick → Monitor → Monitor
unfolding watch_position
after_keep_alive t m =
    if is_active m.session.end_reason then watch_position t m else record m { running = false }

unfoldable pub turn : ℕ → Tick → Monitor → Monitor
unfolding after_keep_alive watch_position
turn keep_alive_ms t m =
    let sent = record m {
      session = send_playback_keep_alive t.keep_alive m.session;
      next_keep_alive = t.now + keep_alive_ms;
    } in
    if not m.running || m.session.stopped
    then record m { running = false }
    else if leb m.next_keep_alive t.now
    then after_keep_alive t sent
    else watch_position t m

unfoldable pub watch : ℕ → List Tick → Monitor → Monitor
watch keep_alive_ms [] m = m
watch keep_alive_ms (t ∷ ts) m = watch keep_alive_ms ts (turn keep_alive_ms t m)

-- The keep-alives of a session, in order.
unfoldable pub keep_alives : List Bool → HcSession → HcSession
keep_alives [] s = s
keep_alives (a ∷ as') s = keep_alives as' (send_playback_keep_alive a s)

-- Three failures in a row stand somewhere in the answers, with `n` failures just before them.
abbrev pub three_in_a_row : ℕ → List Bool → Bool
three_in_a_row n [] = false
three_in_a_row n (true ∷ answers) = three_in_a_row 0 answers
three_in_a_row n (false ∷ answers) = leb 3 (n + 1) || three_in_a_row (n + 1) answers

send_ended :
    (answer : Bool) (s : HcSession)
    → is_active s.end_reason ≡ false
    → (send_playback_keep_alive answer s).end_reason ≡ s.end_reason
unfolding send_playback_keep_alive
send_ended answer s h = ground arith

ended_stays :
    (answers : List Bool) (s : HcSession)
    → is_active s.end_reason ≡ false
    → (keep_alives answers s).end_reason ≡ s.end_reason
unfolding keep_alives
ended_stays [] s h = refl
ended_stays (a ∷ answers) s h =
    ended_stays answers (send_playback_keep_alive a s) (rw (send_ended a s h) h) ∙ send_ended a s h

-- A failure that is the third in a row ends an active session; any other only counts.
send_failed :
    (s : HcSession)
    → s.end_reason ≡ active
    → s.keep_alive_failures < 3
    → (leb 3 (s.keep_alive_failures + 1) ≡ true)
        × ((send_playback_keep_alive false s).end_reason ≡ sdk_keep_alive_failed)
      ⊎ (leb 3 (s.keep_alive_failures + 1) ≡ false)
        × (send_playback_keep_alive false s
            ≡ record s { keep_alive_failures = s.keep_alive_failures + 1 })
unfolding send_playback_keep_alive
send_failed s h k = ground arith

-- The keep-alives end an active playback exactly if three of them in a row fail; then the reason is
-- that, and otherwise the session stays active.
pub keep_alives_lem :
    (answers : List Bool) (s : HcSession)
    → s.end_reason ≡ active
    → s.keep_alive_failures < 3
    → (keep_alives answers s).end_reason
      ≡ (if three_in_a_row s.keep_alive_failures answers then sdk_keep_alive_failed else active)
unfolding keep_alives
keep_alives_lem [] s h k = h
keep_alives_lem (true ∷ answers) s h k =
    keep_alives_lem answers (send_playback_keep_alive true s) (unfold send_playback_keep_alive in h)
      (unfold send_playback_keep_alive in omega arith)
    ∙ unfold send_playback_keep_alive in refl
keep_alives_lem (false ∷ answers) s h k = elim (send_failed s h k) [
  | inl (third, ended) ↦
      rw third (ended_stays answers (send_playback_keep_alive false s) (rw ended refl) ∙ ended)
  | inr (more, same) ↦ rw more (
      ap (λ x. (keep_alives answers x).end_reason) same
      ∙ keep_alives_lem answers (record s { keep_alive_failures = s.keep_alive_failures + 1 }) h
          (ground arith))
]
