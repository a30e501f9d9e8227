-- ===== src/Status/Sticky.antt =====
-- The end of a session by a cleanup is final.
use hik_hcnet_http_bridge.Common.{
  ℕ, ◌+◌, ◌≤◌, ◌≡◌, ◌≢◌, refl, ap, ◌∙◌, false, List, [], ◌∷◌, some, arith, ltb, if◌then◌else◌, ℤ,
  All, Bool-cases, Option-cases, inl, inr,
}
use hik_hcnet_http_bridge.Text.{Bytes, equal, equal_iff, equal_refl}
use hik_hcnet_http_bridge.Dict.{
  lookup, insert, Unique, insert-Unique, retain-Unique, lookup-retain, lookup-insert, filter_value,
}
use hik_hcnet_http_bridge.EndReason.{StreamEndReason}
use hik_hcnet_http_bridge.Status.{
  Now, SessionStatus, Statuses, new_status, lifetime, is_recent, cleanup, set_active, manual,
  QueueReport, ended, existing_or_new, set_ended, change, with_output, set_output_ready,
  with_first_frame, set_browser_first_frame, get,
}

-- The steps of the sessions and of their browsers. Only the start of a session of the same name
-- begins a new entry.
pub data Event : Type 0 where
  ends : Bytes → StreamEndReason → Bytes → QueueReport → Event
  outputs : Bytes → Event
  shows : Bytes → ℤ → Event
  asks : Bytes → Event
  starts : Bytes → Event

unfoldable pub apply : Now → Event → Statuses → Statuses
unfolding set_ended set_output_ready set_browser_first_frame get set_active
apply now (ends sid reason message report) items = set_ended now sid reason message report items
apply now (outputs sid) items = set_output_ready now sid items
apply now (shows sid elapsed) items = (set_browser_first_frame now sid elapsed items).0
apply now (asks sid) items = (get now sid items).0
apply now (starts sid) items = set_active now sid items

unfoldable pub apply_all : List (Now × Event) → Statuses → Statuses
apply_all [] items = items
apply_all ((now, event) ∷ events) items = apply_all events (apply now event items)

-- The registry says that the session was ended by a cleanup, at the time `at` or after it.
pub record IsManual (sid : Bytes) (at : ℕ) (items : Statuses) : Type 0 where
  pub value : SessionStatus
  pub there : lookup sid items ≡ some value
  pub reason : value.end_reason ≡ manual
  pub since : at ≤ value.updated
  pub unique : Unique items

recent_kept :
    (now : Now) (at : ℕ) (value : SessionStatus)
    → now.steady ≤ at + lifetime
    → at ≤ value.updated
    → filter_value (is_recent now) (some value) ≡ some value
recent_kept now at value h since =
    let fresh : ltb (value.updated + lifetime) now.steady ≡ false = ground arith in rw fresh

cleanup-IsManual :
    (now : Now) (sid : Bytes) (at : ℕ) (items : Statuses)
    → now.steady ≤ at + lifetime
    → IsManual sid at items
    → IsManual sid at (cleanup now items)
unfolding cleanup
cleanup-IsManual now sid at items h m = record {
  value = m.value;
  there =
      lookup-retain (is_recent now) sid items m.unique
      ∙ rw m.there (recent_kept now at m.value h m.since);
  reason = m.reason;
  since = m.since;
  unique = retain-Unique (is_recent now) items m.unique;
}

insert-IsManual :
    (j sid : Bytes) (at : ℕ) (items : Statuses) (value : SessionStatus)
    → (j ≡ sid → (value.end_reason ≡ manual) × (at ≤ value.updated))
    → IsManual sid at items
    → IsManual sid at (insert j value items)
insert-IsManual j sid at items value h m = elim (Bool-cases (equal j sid)) [
  | inl e ↦
      let (reason, since) = h ((equal_iff j sid).0 e) in
      record {
        value = value;
        there = lookup-insert j sid value items ∙ rw e;
        reason = reason;
        since = since;
        unique = insert-Unique j value items m.unique;
      }
  | inr e ↦ record {
    value = m.value;
    there = lookup-insert j sid value items ∙ rw e m.there;
    reason = m.reason;
    since = m.since;
    unique = insert-Unique j value items m.unique;
  }
]

-- A change of an entry that keeps its reason and does not set it back in time.
change-IsManual :
    (j sid : Bytes) (at : ℕ) (items : Statuses) (f : SessionStatus → SessionStatus)
    → ((value : SessionStatus) → (f value).end_reason ≡ value.end_reason)
    → ((value : SessionStatus) → at ≤ (f value).updated)
    → IsManual sid at items
    → IsManual sid at (change (lookup j items) j f items)
change-IsManual j sid at items f same later m = elim (Option-cases (lookup j items)) [
  | inl e ↦ rw e m
  | inr (value, e) ↦ rw e (
      insert-IsManual j sid at items (f value) (λ p. (same value ∙ reason value e p, later value))
        m)
]
  where
    reason :
        (value : SessionStatus) → lookup j items ≡ some value → j ≡ sid → value.end_reason ≡ manual
    reason value e p =
        let there : lookup j items ≡ some m.value = rw p m.there in
        let found : value ≡ m.value = cc in rw found m.reason

end_kept-IsManual :
    (now : Now) (j sid : Bytes) (reason : StreamEndReason) (message : Bytes) (report : QueueReport)
    (at : ℕ) (kept : Statuses)
    → IsManual sid at kept
    → IsManual sid at (
        if equal (existing_or_new now (lookup j kept)).end_reason manual
        then kept
        else insert j
            (ended now j reason message report (existing_or_new now (lookup j kept)))
            kept)
end_kept-IsManual now j sid reason message report at kept m =
    elim (Bool-cases (equal (existing_or_new now (lookup j kept)).end_reason manual)) [
      | inl e ↦ rw e m
      | inr e ↦ rw e (insert-IsManual j sid at kept _ (λ p. absurd (other e p)) m)
    ]
  where
    other : equal (existing_or_new now (lookup j kept)).end_reason manual ≡ false → j ≡ sid → ⊥
    other e p =
        let there : lookup j kept ≡ some m.value = rw p m.there in
        cc (equal_refl manual, rw (there, m.reason) at e)

apply-IsManual :
    (now : Now) (event : Event) (sid : Bytes) (at : ℕ) (items : Statuses)
    → event ≢ starts sid
    → at ≤ now.steady
    → now.steady ≤ at + lifetime
    → IsManual sid at items
    → IsManual sid at (apply now event items)
unfolding apply
apply-IsManual now (ends j reason message report) sid at items other late soon m =
    end_kept-IsManual now j sid reason message report at _
      (cleanup-IsManual now sid at items soon m)
apply-IsManual now (outputs j) sid at items other late soon m =
    change-IsManual j sid at items (with_output now) (λ v. refl) (λ v. late) m
apply-IsManual now (shows j elapsed) sid at items other late soon m =
    change-IsManual j sid at items (with_first_frame now elapsed) (λ v. refl) (λ v. late) m
apply-IsManual now (asks j) sid at items other late soon m =
    cleanup-IsManual now sid at items soon m
apply-IsManual now (starts j) sid at items other late soon m =
    insert-IsManual j sid at _ (new_status j now) (λ p. absurd (other (ap starts p)))
      (cleanup-IsManual now sid at items soon m)

-- The events happen within the ten minutes behind `at`, and none starts a session of that name.
abbrev pub InTime : Bytes → ℕ → Now × Event → Type 0
InTime sid at e = (e.1 ≢ starts sid) × (at ≤ e.0.steady) × (e.0.steady ≤ at + lifetime)

-- A session that a cleanup ended keeps that reason: no later end of it by another cause, no output,
-- no browser report and no query changes it, whatever other sessions do, for ten minutes and until a
-- session of the same name starts.
pub apply_all-IsManual :
    (events : List (Now × Event)) (sid : Bytes) (at : ℕ) (items : Statuses)
    → All (InTime sid at) events
    → IsManual sid at items
    → IsManual sid at (apply_all events items)
unfolding apply_all
apply_all-IsManual [] sid at items h m = m
apply_all-IsManual ((now, event) ∷ events) sid at items h m =
    apply_all-IsManual events sid at (apply now event items) h.1
      (apply-IsManual now event sid at items h.0.0 h.0.1 h.0.2 m)
