-- ===== src/Reservation/Manager/Retries.antt =====
-- The retries of an event and their end on the topic of failures (publishRetryEvent of
-- cmd/reservation-service/manager/event.go).
use Prim.Native.String.{◌++◌}
use shippy.Prelude.Backoff.{Backoff}
use shippy.Events.{Wire, confirm_action, release_action, unspecified_action, other_action}
use shippy.Outbox.{OutboxRepository, Scheduled}
use shippy.Reservation.{ReservationCache, VesselClient}
use shippy.Reservation.Manager.{publish_counted, publish_retry_event}
use shippy.Reservation.Manager.Publishing.{World, publish_counted-Publishes}
use shippy.Prelude.{
  ok, ℕ, zero, suc, ◌<◌, pos, String, ltb, if◌then◌else◌, ◌≡◌, ◌≢◌, refl, ◌∙◌, sym, ap, arith, ◌==◌,
  subst₂, to_int32-suc, subst,
}
use text.Mathlib.TextLemmas.{append_cancel_left}
use shippy.Prelude.Decimal.{decimal}
use shippy.Events.{CapacityAction, CapacityEvent}
use shippy.Reservation.Manager.{reservation_id, count_retry, retry_topic, retry_key, action_topic}

-- The event after `n` failures.
abbrev pub after_failures : ℕ → CapacityEvent → CapacityEvent
after_failures zero e = e
after_failures (suc n) e = count_retry (after_failures n e)

after_failures-count :
    (n : ℕ) (e : CapacityEvent)
    → e.retry_count ≡ pos 0
    → n < 2147483648
    → (after_failures n e).retry_count ≡ pos n
unfolding count_retry
after_failures-count zero e h lt = h
after_failures-count (suc n) e h lt =
    let ih : (after_failures n e).retry_count ≡ pos n = after_failures-count n e h (omega arith) in
    rw ih (to_int32-suc n lt)

after_failures-action : (n : ℕ) (e : CapacityEvent) → (after_failures n e).action ≡ e.action
unfolding count_retry
after_failures-action zero e = refl
after_failures-action (suc n) e = after_failures-action n e

after_failures-id :
    (n : ℕ) (e : CapacityEvent) → reservation_id (after_failures n e) ≡ reservation_id e
unfolding count_retry
after_failures-id zero e = refl
after_failures-id (suc n) e = after_failures-id n e

-- The topics on which the events of an action are taken.
abbrev pub topic_of : CapacityAction → String
topic_of confirm_action = "reservation.capacity.confirm"
topic_of release_action = "reservation.capacity.release"
topic_of unspecified_action = "reservation.capacity.failed"
topic_of (other_action n) = "reservation.capacity.failed"

action_topic-topic_of : (a : CapacityAction) → action_topic a ≡ topic_of a
unfolding action_topic
action_topic-topic_of confirm_action = refl
action_topic-topic_of release_action = refl
action_topic-topic_of unspecified_action = refl
action_topic-topic_of (other_action n) = refl

abbrev pub counted : ℕ → CapacityEvent → CapacityEvent
counted n e = record e { retry_count = pos n }

counted-topic :
    (n : ℕ) (e : CapacityEvent)
    → retry_topic (counted n e)
      ≡ (if ltb n 3 then topic_of e.action else "reservation.capacity.failed")
unfolding retry_topic
counted-topic n e = rw (action_topic-topic_of e.action) (ground arith)

-- A retry of the event that has failed `n` times before.
count_retry-counted :
    (n : ℕ) (e : CapacityEvent) → suc n < 2147483648 → count_retry (counted n e) ≡ counted (suc n) e
unfolding count_retry
count_retry-counted n e lt = ap (λ c. record e { retry_count = c }) (to_int32-suc n lt)

module _ (wire : Wire) (cache : ReservationCache) (outbox : OutboxRepository wire.Bytes)
    (vessel_cli : VesselClient) (backoff : Backoff) where
  -- The retries of an event end: where the event has failed `n` times before and its retry is scheduled
  -- without an error, the same event with the count `n + 1` is a new row of the outbox, or the outbox is
  -- as it was since a row of its topic and key, whose payload may be another, is pending. Up to the
  -- second failure the topic is that of its action, and from the third on it is that of failed events;
  -- for an action that is neither a confirmation nor a release it is so from the first. The cache and
  -- the vessel service are as before.
  pub retries_end :
      (n : ℕ) (e : CapacityEvent) (w : World wire cache outbox vessel_cli backoff)
      → suc n < 2147483648
      → let r = publish_retry_event wire cache outbox vessel_cli backoff (counted n e) w in
        (r.1.vessel ≡ w.vessel)
        × (r.1.cache ≡ w.cache)
        × (r.0 ≡ ok tt
            → Scheduled wire.capacity
                (if ltb (suc n) 3 then topic_of e.action else "reservation.capacity.failed")
                (reservation_id e ++ ("-" ++ decimal (pos (suc n))))
                (counted (suc n) e)
                (outbox.rows w.outbox)
                (outbox.rows r.1.outbox))
  unfolding publish_retry_event retry_key
  retries_end n e w lt =
      let e' : CapacityEvent = counted (suc n) e in
      let (v, c, s) = publish_counted-Publishes wire cache outbox vessel_cli backoff e' w in
      rw (count_retry-counted n e lt) (
        v,
        c,
        λ h.
            subst
              (λ t.
                Scheduled wire.capacity t (reservation_id e ++ ("-" ++ decimal (pos (suc n)))) e'
                  (outbox.rows w.outbox)
                  (outbox.rows
                    (publish_counted wire cache outbox vessel_cli backoff e' w).1.outbox))
              (counted-topic (suc n) e) (s h),
      )

-- The number that a decimal below four stands for.
small : String → ℕ
small s = if s == "0" then 0 else if s == "1" then 1 else if s == "2" then 2 else 3

small-decimal : (n : ℕ) → n < 4 → small (decimal (pos n)) ≡ n
unfolding small decimal
small-decimal zero h = refl
small-decimal (suc zero) h = refl
small-decimal (suc (suc zero)) h = refl
small-decimal (suc (suc (suc zero))) h = refl
small-decimal (suc (suc (suc (suc n)))) h = absurd (omega arith)

-- The retries of an event that starts with no retries have different keys in the outbox, up to the
-- third: the unique index on key and topic drops none of them.
pub retry_keys_differ :
    (n m : ℕ) (e : CapacityEvent)
    → e.retry_count ≡ pos 0
    → n < 4
    → m < 4
    → n ≢ m
    → retry_key (after_failures n e) ≢ retry_key (after_failures m e)
unfolding retry_key
retry_keys_differ n m e h ln lm differ same =
    let cn : (after_failures n e).retry_count ≡ pos n = after_failures-count n e h (omega arith) in
    let cm : (after_failures m e).retry_count ≡ pos m = after_failures-count m e h (omega arith) in
    let tails : ("-" ++ decimal (pos n)) ≡ ("-" ++ decimal (pos m)) =
      append_cancel_left (reservation_id e) ("-" ++ decimal (pos n)) ("-" ++ decimal (pos m)) (
        subst₂
          (λ a b.
            (reservation_id e ++ ("-" ++ decimal a)) ≡ (reservation_id e ++ ("-" ++ decimal b)))
          cn cm
          (subst₂
            (λ a b.
              (a ++ ("-" ++ decimal (after_failures n e).retry_count))
              ≡ (b ++ ("-" ++ decimal (after_failures m e).retry_count)))
            (after_failures-id n e) (after_failures-id m e) same)) in
    differ (
      sym (small-decimal n ln)
      ∙ ap small (append_cancel_left "-" (decimal (pos n)) (decimal (pos m)) tails)
      ∙ small-decimal m lm)
