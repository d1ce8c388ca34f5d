-- ===== src/Store/Invites.antt =====
-- The invite requests' methods. `fold` is the case folding of a code point that strings.EqualFold
-- compares by.
use runko.Prelude.{
  ℕ, suc, ◌+◌, Bool, true, false, ◌&&◌, leb, ltb, ◌==◌, Option, none, some, List, [], ◌∷◌, map,
  length, any, keep, Text, text_eq, sort_with, is_empty, if◌then◌else◌,
}
use runko.Checks.Delivery.{next_backoff, max_delivery_attempts}
use runko.Store.Model.{
  InviteStatus, waiting, sent, retrying, given_up, InviteRequest, MemStore, Answer, no_such_invite,
  done,
}

-- pending or failed
pub is_live : InviteStatus → Bool
is_live waiting = true
is_live retrying = true
is_live sent = false
is_live given_up = false

-- the number of requests that count against the backlog: CountLiveInviteRequests
unfoldable pub count_live_invite_requests : MemStore → ℕ
unfolding keep is_live
count_live_invite_requests s = length (keep (λ r. is_live r.status) s.invite_reqs)

module _ (fold : ℕ → ℕ) where
  pub holds_email : Text → Text → InviteRequest → Bool
  unfolding is_live text_eq
  holds_email kind email r =
      text_eq r.kind kind && (is_live r.status && text_eq (map fold r.email) (map fold email))

  -- CreateInviteRequest: `none` where a live request already holds the email
  unfoldable pub create_invite_request :
      Text → Text → Text → Text → ℕ → MemStore → Option InviteRequest × MemStore
  unfolding any holds_email
  create_invite_request kind name email message now s =
      let n = suc s.next_id in
      let r : InviteRequest = record {
        id = n;
        kind = kind;
        name = name;
        email = email;
        message = message;
        status = waiting;
        attempt = 0;
        next_attempt_at = now;
        last_error = [];
        created_at = now;
      } in
      if any (holds_email kind email) s.invite_reqs
      then (none, s)
      else (some r, record s { next_id = n; invite_reqs = r ∷ s.invite_reqs })

-- ListDueInviteRequests; `id_less` is the order of the printed ids
unfoldable pub list_due_invite_requests : (ℕ → ℕ → Bool) → ℕ → MemStore → List InviteRequest
unfolding keep is_live sort_with
list_due_invite_requests id_less now s =
    sort_with
      (λ a b.
        if a.next_attempt_at == b.next_attempt_at
        then id_less a.id b.id
        else ltb a.next_attempt_at b.next_attempt_at)
      (keep (λ r. is_live r.status && leb r.next_attempt_at now) s.invite_reqs)

-- the request after an attempt of the mailer
pub attempted : Text → ℕ → ℕ → ℕ → InviteRequest → InviteRequest
attempted send_err base max now r =
    let n = suc r.attempt in
    if is_empty send_err then record r { status = sent } else record r {
      attempt = n;
      status = if leb max_delivery_attempts n then given_up else retrying;
      next_attempt_at = now + next_backoff n base max;
      last_error = send_err;
    }

-- the requests with the one of that number changed, if there is one, and the changed one
alter_invite :
    (InviteRequest → InviteRequest)
    → ℕ
    → List InviteRequest
    → Option (InviteRequest × List InviteRequest)
alter_invite f id [] = none
alter_invite f id (r ∷ rs) =
    let rest = alter_invite f id rs in
    if r.id == id
    then some (f r, f r ∷ rs)
    else elim rest [ none ↦ none | some (x, rs') ↦ some (x, r ∷ rs') ]

-- RecordInviteSendResult
unfoldable pub record_invite_send_result :
    ℕ → Text → ℕ → ℕ → ℕ → MemStore → Answer (InviteRequest × MemStore)
unfolding alter_invite attempted
record_invite_send_result id send_err base max now s =
    elim (alter_invite (attempted send_err base max now) id s.invite_reqs) [
      | none ↦ no_such_invite
      | some (r, rs) ↦ done (r, record s { invite_reqs = rs })
    ]
