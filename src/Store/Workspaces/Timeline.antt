-- ===== src/Store/Workspaces/Timeline.antt =====
-- What the timelines of the workspaces keep, however many events are recorded.
use runko.Prelude.{
  ℕ, zero, suc, ◌≤◌, ◌<◌, ◌-◌, ◌≡◌, refl, sym, ap, subst, ◌∙◌, inl, inr, List, [], ◌∷◌, ◌++◌,
  length, arith, Bool-cases, Text, text_eq, lookup, lookup-put, lookup-remove, put, remove,
  if◌then◌else◌,
}
use runko.Store.Model.{WorkspaceEvent, MemStore, new_mem_store, at_key}
use runko.Store.Reviews.{drop}
use runko.Store.Workspaces.{
  workspace_event_retention_cap, retained, record_workspace_event, delete_workspace_events,
}

-- The rows' numbers rise, all above one number and none above another.
abbrev pub Rising : ℕ → List WorkspaceEvent → ℕ → Type 0
Rising low [] high = low ≤ high
Rising low (r ∷ rows) high = (low < r.id) × Rising r.id rows high

Rising-wider :
    (low low' high high' : ℕ) (rows : List WorkspaceEvent)
    → low' ≤ low
    → high ≤ high'
    → Rising low rows high
    → Rising low' rows high'
Rising-wider low low' high high' [] l h k = omega arith
Rising-wider low low' high high' (r ∷ rows) l h (a, k) =
    (omega arith, Rising-wider r.id r.id high high' rows (omega arith) h k)

Rising-drop :
    (n low high : ℕ) (rows : List WorkspaceEvent)
    → Rising low rows high
    → Rising low (drop n rows) high
unfolding drop
Rising-drop zero low high rows k = k
Rising-drop (suc n) low high [] k = k
Rising-drop (suc n) low high (r ∷ rows) (a, k) =
    Rising-drop n low high rows (Rising-wider r.id low high high rows (omega arith) (omega arith) k)

Rising-append :
    (low high : ℕ) (rows : List WorkspaceEvent) (row : WorkspaceEvent)
    → high < row.id
    → Rising low rows high
    → Rising low (rows ++ row ∷ []) row.id
Rising-append low high [] row h k = (omega arith, omega arith)
Rising-append low high (r ∷ rows) row h (a, k) = (a, Rising-append r.id high rows row h k)

length-drop : {A : Type 0} (n : ℕ) (xs : List A) → length (drop n xs) ≡ length xs - n
unfolding drop
length-drop zero xs = omega arith
length-drop (suc n) [] = omega arith
length-drop (suc n) (x ∷ xs) = let rest = length-drop n xs in omega arith

retained-bounded :
    {A : Type 0} (cap : ℕ) (rows : List A) (row : A) → length (retained cap rows row) ≤ cap
unfolding retained
retained-bounded cap rows row =
    let all = rows ++ row ∷ [] in let cut = length-drop (length all - cap) all in omega arith

-- A timeline holds no more rows than the cap, and their numbers rise up to the counter.
abbrev pub IsTimeline : MemStore → Type 0
IsTimeline s =
    (id : Text)
    → (length (at_key id s.ws_events) ≤ workspace_event_retention_cap)
      × Rising 0 (at_key id s.ws_events) s.ws_event_seq

-- The stores that the timelines' methods lead to from an empty one.
pub data Recorded : MemStore → Type 0 where
  nothing_yet : Recorded new_mem_store
  one_more :
      {s : MemStore} (ev : WorkspaceEvent) (now : ℕ)
      → Recorded s
      → Recorded (record_workspace_event ev now s).1
  cleared : {s : MemStore} (id : Text) → Recorded s → Recorded (delete_workspace_events id s)
  -- any method of the other tables
  aside :
      {before after : MemStore}
      → after.ws_events ≡ before.ws_events
      → after.ws_event_seq ≡ before.ws_event_seq
      → Recorded before
      → Recorded after

at_key-put_cases :
    {V : Type 0} (k j : Text) (rows : List V) (d : List (Text × List V))
    → at_key j (put k rows d) ≡ (if text_eq k j then rows else at_key j d)
at_key-put_cases k j rows d = elim (Bool-cases (text_eq k j)) [
  | inl e ↦ rw (lookup-put k j rows d, e, at_key) refl
  | inr e ↦ rw (lookup-put k j rows d, e, at_key) refl
]

at_key-remove_cases :
    {V : Type 0} (k j : Text) (d : List (Text × List V))
    → at_key j (remove k d) ≡ (if text_eq k j then [] else at_key j d)
at_key-remove_cases k j d = elim (Bool-cases (text_eq k j)) [
  | inl e ↦ rw (lookup-remove k j d, e, at_key) refl
  | inr e ↦ rw (lookup-remove k j d, e, at_key) refl
]

recorded_row :
    (ev : WorkspaceEvent) (now : ℕ) (s : MemStore)
    → IsTimeline s
    → IsTimeline (record_workspace_event ev now s).1
unfolding record_workspace_event retained
recorded_row ev now s timeline id =
    let row : WorkspaceEvent = (record_workspace_event ev now s).0 in
    let rows = at_key ev.workspace_id s.ws_events in
    let new = retained workspace_event_retention_cap rows row in
    let (short, rising) = timeline ev.workspace_id in
    let (short', rising') = timeline id in
    let n = suc s.ws_event_seq in
    let is = at_key-put_cases ev.workspace_id id new s.ws_events in
    elim (Bool-cases (text_eq ev.workspace_id id)) [
      | inl e ↦
          let one : at_key id (put ev.workspace_id new s.ws_events) ≡ new = is ∙ rw e refl in
          subst
            (λ (z : List WorkspaceEvent). (length z ≤ workspace_event_retention_cap) × Rising 0 z n)
            (sym one)
            (
              retained-bounded workspace_event_retention_cap rows row,
              Rising-drop (length (rows ++ row ∷ []) - workspace_event_retention_cap) 0 n
                  (rows ++ row ∷ []) (Rising-append 0 s.ws_event_seq rows row (omega arith) rising),
            )
      | inr e ↦
          let one : at_key id (put ev.workspace_id new s.ws_events) ≡ at_key id s.ws_events =
            is ∙ rw e refl in
          subst
            (λ (z : List WorkspaceEvent). (length z ≤ workspace_event_retention_cap) × Rising 0 z n)
            (sym one)
            (
              short',
              Rising-wider 0 0 s.ws_event_seq n (at_key id s.ws_events) (omega arith) (omega arith)
                  rising',
            )
    ]

cleared_rows :
    (key : Text) (s : MemStore) → IsTimeline s → IsTimeline (delete_workspace_events key s)
unfolding delete_workspace_events
cleared_rows key s timeline id =
    let is = at_key-remove_cases key id s.ws_events in
    elim (Bool-cases (text_eq key id)) [
      | inl e ↦
          let gone : at_key id (remove key s.ws_events) ≡ [] = is ∙ rw e refl in
          subst
            (λ (z : List WorkspaceEvent).
              (length z ≤ workspace_event_retention_cap) × Rising 0 z s.ws_event_seq)
            (sym gone) (omega arith, omega arith)
      | inr e ↦
          let kept : at_key id (remove key s.ws_events) ≡ at_key id s.ws_events = is ∙ rw e refl in
          subst
            (λ (z : List WorkspaceEvent).
              (length z ≤ workspace_event_retention_cap) × Rising 0 z s.ws_event_seq)
            (sym kept) (timeline id)
    ]

-- Whatever is recorded and cleared, each workspace's timeline holds at most 500 events, in the order
-- in which they were recorded: their numbers rise strictly, and none is above the store's counter.
pub Recorded-IsTimeline : {s : MemStore} → Recorded s → IsTimeline s
unfolding lookup
Recorded-IsTimeline nothing_yet id = (omega arith, omega arith)
Recorded-IsTimeline (one_more {s} ev now before) id =
    recorded_row ev now s (Recorded-IsTimeline before) id
Recorded-IsTimeline (cleared {s} key before) id = cleared_rows key s (Recorded-IsTimeline before) id
Recorded-IsTimeline {s} (aside {before = s0} rows counter earlier) id =
    let (short, rising) = Recorded-IsTimeline earlier id in
    let same : at_key id s.ws_events ≡ at_key id s0.ws_events = ap (λ d. at_key id d) rows in
    (
      subst (λ (z : List WorkspaceEvent). length z ≤ workspace_event_retention_cap) (sym same)
          short,
      subst (λ (z : List WorkspaceEvent). Rising 0 z s.ws_event_seq) (sym same)
          (subst (λ (n : ℕ). Rising 0 (at_key id s0.ws_events) n) (sym counter) rising),
    )
