-- ===== src/Store/Outbox/Attempts.antt =====
-- How often a delivery is tried.
use runko.Prelude.{
  ℕ, suc, ◌≤◌, ◌<◌, ◌≡◌, subst, inl, inr, true, ◌&&◌, none, some, List, [], ◌∷◌, arith, leb, ◌==◌,
  Bool-cases, Option-cases, All, Text, keep,
}
use runko.Checks.Delivery.{max_delivery_attempts}
use runko.Store.Model.{
  DeliveryStatus, pending, delivered, failed, dead_letter, Delivery, MemStore, no_such_delivery,
  done, new_mem_store,
}
use runko.Store.Outbox.{
  DeliveryAttempt, enqueue_webhook, retried, list_due_webhook_deliveries, recorded, alter_delivery,
  record_delivery_result,
}

-- A row that is tried again has been tried fewer times than the bound, a dead letter at least so
-- many times.
abbrev Counted : DeliveryStatus → ℕ → Type 0
Counted pending n = n < max_delivery_attempts
Counted failed n = n < max_delivery_attempts
Counted delivered n = Unit
Counted dead_letter n = max_delivery_attempts ≤ n

abbrev pub WellCounted : MemStore → Type 0
WellCounted s = All (λ d. Counted d.status d.attempt) s.deliveries

-- A store that calls of the outbox's methods make from a well-counted one.
pub data Reached : MemStore → MemStore → Type 0 where
  start : {s : MemStore} → Reached s s
  enqueued :
      {s t : MemStore} (event_type payload : Text)
      → Reached s t
      → Reached s (enqueue_webhook event_type payload t).1
  resulted :
      {s t u : MemStore} (id : ℕ) (result : DeliveryAttempt) (base max now : ℕ)
      → Reached s t
      → record_delivery_result id result base max now t ≡ done u
      → Reached s u

recorded-Counted :
    (result : DeliveryAttempt) (base max now : ℕ) (d : Delivery)
    → Counted (recorded result base max now d).status (recorded result base max now d).attempt
unfolding recorded
recorded-Counted result base max now d = elim (Bool-cases result.success) [
  | inl e ↦ rw (e, recorded) tt
  | inr e ↦ elim (Bool-cases (leb max_delivery_attempts (suc d.attempt))) [
    | inl f ↦ rw (e, f, recorded) (ground arith)
    | inr f ↦ rw (e, f, recorded) (ground arith)
  ]
]

alter_delivery-All :
    (f : Delivery → Delivery) (id : ℕ) (ds es : List Delivery)
    → ((d : Delivery) → Counted (f d).status (f d).attempt)
    → alter_delivery f id ds ≡ some es
    → All (λ d. Counted d.status d.attempt) ds
    → All (λ d. Counted d.status d.attempt) es
unfolding alter_delivery
alter_delivery-All f id [] es m h a = ground arith
alter_delivery-All f id (d ∷ ds) es m h (k, a) = elim (Bool-cases (d.id == id)) [
  | inl e ↦
      let q : some (f d ∷ ds) ≡ some es = rw (e, alter_delivery) at h in
      let same : f d ∷ ds ≡ es = cc in subst (All (λ d. Counted d.status d.attempt)) same (m d, a)
  | inr e ↦ elim (Option-cases (alter_delivery f id ds)) [
    | inl g ↦ let q : none ≡ some es = rw (e, g, alter_delivery) at h in ground arith
    | inr (rest, g) ↦
        let q : some (d ∷ rest) ≡ some es = rw (e, g, alter_delivery) at h in
        let same : d ∷ rest ≡ es = cc in
        subst (All (λ d. Counted d.status d.attempt)) same
          (k, alter_delivery-All f id ds rest m g a)
  ]
]

Reached-WellCounted : {s t : MemStore} → Reached s t → WellCounted s → WellCounted t
unfolding enqueue_webhook record_delivery_result
Reached-WellCounted start w = w
Reached-WellCounted (enqueued e p r) w = (ground arith, Reached-WellCounted r w)
Reached-WellCounted {s} {t} (resulted {t = m} id result base max now r h) w =
    elim (Option-cases (alter_delivery (recorded result base max now) id m.deliveries)) [
      | inl e ↦
          let q : no_such_delivery ≡ done t = rw (e, record_delivery_result) at h in ground arith
      | inr (ds, e) ↦
          let q : done (record m { deliveries = ds }) ≡ done t =
            rw (e, record_delivery_result) at h in
          let same : record m { deliveries = ds } ≡ t = cc in
          subst WellCounted same (
            alter_delivery-All _ id m.deliveries ds (recorded-Counted result base max now) e
              (Reached-WellCounted r w))
    ]

retried-below :
    (st : DeliveryStatus) (n : ℕ) → retried st ≡ true → Counted st n → n < max_delivery_attempts
unfolding retried
retried-below pending n h k = k
retried-below failed n h k = k
retried-below delivered n h k = ground arith
retried-below dead_letter n h k = ground arith

due-below :
    (now : ℕ) (ds : List Delivery)
    → All (λ d. Counted d.status d.attempt) ds
    → All
        (λ d.
          (retried d.status ≡ true)
          × (d.attempt < max_delivery_attempts)
          × (d.next_attempt_at ≤ now))
        (keep (λ d. retried d.status && leb d.next_attempt_at now) ds)
unfolding keep retried
due-below now [] a = tt
due-below now (d ∷ ds) (k, a) = elim (Bool-cases (retried d.status && leb d.next_attempt_at now)) [
  | inl e ↦
      let r : retried d.status ≡ true = ground arith in
      let t : d.next_attempt_at ≤ now = ground arith in
      rw e ((r, retried-below d.status d.attempt r k, t), due-below now ds a)
  | inr e ↦ rw e (due-below now ds a)
]

-- Whatever results come in from the empty store on, a delivery that the worker is given is pending
-- or failed, has been tried fewer than eight times, and is due by its time.
pub list_due_webhook_deliveries-bounded :
    {s : MemStore} (now : ℕ)
    → Reached new_mem_store s
    → All
        (λ d.
          (retried d.status ≡ true)
          × (d.attempt < max_delivery_attempts)
          × (d.next_attempt_at ≤ now))
        (list_due_webhook_deliveries now s)
unfolding list_due_webhook_deliveries
list_due_webhook_deliveries-bounded {s} now r =
    due-below now s.deliveries (Reached-WellCounted r tt)
