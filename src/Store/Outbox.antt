-- ===== src/Store/Outbox.antt =====
-- The webhook outbox: EnqueueWebhook, ListDueWebhookDeliveries, RecordDeliveryResult. Durations and
-- times are nanoseconds; the zero time is 0.
pub mod Attempts
use runko.Prelude.{
  ℕ, suc, ◌+◌, Bool, true, false, ◌&&◌, Option, none, some, List, [], ◌∷◌, leb, ◌==◌, Text, keep,
  if◌then◌else◌,
}
use runko.Checks.Delivery.{next_backoff, max_delivery_attempts}
use runko.Store.Model.{
  DeliveryStatus, pending, delivered, failed, dead_letter, Delivery, MemStore, Answer,
  no_such_delivery, done,
}

-- checks.DeliveryAttempt, as far as the store reads it
pub record DeliveryAttempt : Type 0 where
  pub success : Bool
  pub err : Option Text

-- EnqueueWebhook
unfoldable pub enqueue_webhook : Text → Text → MemStore → ℕ × MemStore
enqueue_webhook event_type payload s =
    let id = suc s.next_id in
    (
      id,
      record s {
        next_id = id;
        deliveries =
            record {
              id = id;
              event_type = event_type;
              payload = payload;
              status = pending;
              attempt = 0;
              next_attempt_at = 0;
              last_error = [];
            }
            ∷ s.deliveries;
      },
    )

-- the statuses that are tried again
pub retried : DeliveryStatus → Bool
retried pending = true
retried failed = true
retried delivered = false
retried dead_letter = false

-- ListDueWebhookDeliveries
unfoldable pub list_due_webhook_deliveries : ℕ → MemStore → List Delivery
unfolding keep retried
list_due_webhook_deliveries now s =
    keep (λ d. retried d.status && leb d.next_attempt_at now) s.deliveries

error_text : Option Text → Text → Text
error_text none last = last
error_text (some e) last = e

-- the row after a result; the delay is the one of NextBackoff, which does not wrap to a negative
-- one for the attempts and the bounds in use
recorded : DeliveryAttempt → ℕ → ℕ → ℕ → Delivery → Delivery
unfolding error_text
recorded result base max now d =
    let n = suc d.attempt in
    if result.success then record d { attempt = n; status = delivered } else record d {
      attempt = n;
      status = if leb max_delivery_attempts n then dead_letter else failed;
      next_attempt_at = now + next_backoff n base max;
      last_error = error_text result.err d.last_error;
    }

-- the rows with the one of that number changed, if there is one
alter_delivery : (Delivery → Delivery) → ℕ → List Delivery → Option (List Delivery)
alter_delivery f id [] = none
alter_delivery f id (d ∷ ds) =
    let rest = alter_delivery f id ds in
    if d.id == id then some (f d ∷ ds) else elim rest [ none ↦ none | some ds' ↦ some (d ∷ ds') ]

-- RecordDeliveryResult
unfoldable pub record_delivery_result : ℕ → DeliveryAttempt → ℕ → ℕ → ℕ → MemStore → Answer MemStore
unfolding recorded alter_delivery
record_delivery_result id result base max now s =
    elim (alter_delivery (recorded result base max now) id s.deliveries) [
      | none ↦ no_such_delivery
      | some ds ↦ done (record s { deliveries = ds })
    ]
