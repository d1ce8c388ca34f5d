-- ===== src/Store/CheckRuns/Carry.antt =====
-- What carrying the passing runs over to a rebased head does.
use runko.Prelude.{
  ℕ, ◌≡◌, refl, sym, ap, ◌∙◌, subst, ◌⊎◌, inl, inr, true, ◌&&◌, Option, none, some, List, [], ◌∷◌,
  arith, In, ◌↔◌, Bool-cases, Option-cases, Text, text_eq, text_eq_iff, lookup, put, lookup-put,
  if◌then◌else◌,
}
use runko.Checks.Runs.{CheckRunView, Standing, absent, running, passed, failed, standing_of}
use runko.Store.Model.{MemStore, at_key}
use runko.Store.CheckRuns.{
  check_run_key, filled_in, upsert_check_run, is_passed, passing, copy_one, copy_passing,
  copy_passing_check_runs,
}

-- The run at `name` after the loop: one that was there, else the first copy of a passing one.
carried : Text → Text → List (Text × CheckRunView) → Option CheckRunView
unfolding passing text_eq
carried from_head name [] = none
carried from_head name ((key, run) ∷ from) =
    if text_eq key name && passing run
    then some (record run { copied_from_head_sha = from_head })
    else carried from_head name from

or_else : {A : Type 0} → Option A → Option A → Option A
or_else none o = o
or_else (some a) o = some a

-- What stands in the way of a copy, and that nothing does.
copy_one-none :
    (from_head name key : Text) (run : CheckRunView) (from to : List (Text × CheckRunView))
    → copy_one from_head key run to ≡ none
    → or_else (lookup name to) (carried from_head name from)
      ≡ or_else (lookup name to) (carried from_head name ((key, run) ∷ from))
unfolding copy_one carried or_else
copy_one-none from_head name key run from to h = elim (Bool-cases (passing run)) [
  | inr p ↦ elim (Bool-cases (text_eq key name)) [
    | inl e ↦ rw (e, p, carried) refl
    | inr e ↦ rw (e, carried) refl
  ]
  | inl p ↦ elim (Option-cases (lookup key to)) [
    | inl l ↦ let k = rw (p, l, copy_one) at h in ground arith
    | inr (t, l) ↦ elim (Bool-cases (text_eq key name)) [
      | inl e ↦
          let q = subst (λ (z : Text). lookup z to ≡ some t) ((text_eq_iff key name).0 e) l in
          rw (q, or_else) refl
      | inr e ↦ rw (e, carried) refl
    ]
  ]
]

copy_one-some :
    (from_head name key : Text) (run copy : CheckRunView) (from to : List (Text × CheckRunView))
    → copy_one from_head key run to ≡ some copy
    → or_else (lookup name (put key copy to)) (carried from_head name from)
      ≡ or_else (lookup name to) (carried from_head name ((key, run) ∷ from))
unfolding copy_one carried or_else
copy_one-some from_head name key run copy from to h = elim (Bool-cases (passing run)) [
  | inr p ↦ let k = rw (p, copy_one) at h in ground arith
  | inl p ↦ elim (Option-cases (lookup key to)) [
    | inr (t, l) ↦ let k = rw (p, l, copy_one) at h in ground arith
    | inl l ↦ elim (Bool-cases (text_eq key name)) [
      | inl e ↦
          let q = subst (λ (z : Text). lookup z to ≡ none) ((text_eq_iff key name).0 e) l in
          let stored : lookup name (put key copy to) ≡ some copy =
            lookup-put key name copy to ∙ rw e refl in
          let made = rw (p, l, copy_one) at h in rw (stored, q, e, p, or_else, carried) (sym made)
      | inr e ↦
          let stored : lookup name (put key copy to) ≡ lookup name to =
            lookup-put key name copy to ∙ rw e refl in
          rw (stored, e, carried) refl
    ]
  ]
]

copy_passing-lookup :
    (from_head name : Text) (from to : List (Text × CheckRunView))
    → lookup name (copy_passing from_head from to).0
      ≡ or_else (lookup name to) (carried from_head name from)
unfolding copy_passing or_else carried
copy_passing-lookup from_head name [] to = elim (Option-cases (lookup name to)) [
  | inl e ↦ rw (e, or_else, carried) refl
  | inr (r, e) ↦ rw (e, or_else) refl
]
copy_passing-lookup from_head name ((key, run) ∷ from) to =
    elim (Option-cases (copy_one from_head key run to)) [
      | inl e ↦
          rw (e, copy_passing)
            (copy_passing-lookup from_head name from to
              ∙ copy_one-none from_head name key run from to e)
      | inr (copy, e) ↦
          rw (e, copy_passing)
            (copy_passing-lookup from_head name from (put key copy to)
              ∙ copy_one-some from_head name key run copy from to e)
    ]

-- The run at a head, by its check name.
abbrev pub run_at : Text → Text → Text → MemStore → Option CheckRunView
run_at change_key head_sha name s =
    lookup name (at_key (check_run_key change_key head_sha) s.check_runs)

-- The run is completed with success.
abbrev pub Passed : CheckRunView → Type 0
Passed run = standing_of run.status run.conclusion ≡ passed

is_passed_sound : (st : Standing) → is_passed st ≡ true → st ≡ passed
unfolding is_passed
is_passed_sound absent h = ground arith
is_passed_sound running h = ground arith
is_passed_sound passed h = refl
is_passed_sound failed h = ground arith

passing-Passed : (run : CheckRunView) → passing run ≡ true → Passed run
unfolding passing
passing-Passed run h = is_passed_sound (standing_of run.status run.conclusion) h

carried-found :
    (from_head name : Text) (from : List (Text × CheckRunView)) (r : CheckRunView)
    → carried from_head name from ≡ some r
    → (b : CheckRunView) × In (name, b) from
      × Passed b
      × (r ≡ record b { copied_from_head_sha = from_head })
unfolding carried
carried-found from_head name [] r h = ground arith
carried-found from_head name ((key, run) ∷ from) r h = elim (Bool-cases (text_eq key name)) [
  | inl e ↦ elim (Bool-cases (passing run)) [
    | inl p ↦
        let made : some (record run { copied_from_head_sha = from_head }) ≡ some r =
          rw (e, p, carried) at h in
        let same : record run { copied_from_head_sha = from_head } ≡ r = cc in
        (
          run,
          inl (ap (λ (k : Text). (k, run)) ((text_eq_iff key name).0 e)),
          passing-Passed run p,
          sym same,
        )
    | inr p ↦
        let (b, i, q, k) = carried-found from_head name from r (rw (e, p, carried) at h) in
        (b, inr i, q, k)
  ]
  | inr e ↦
      let (b, i, q, k) = carried-found from_head name from r (rw (e, carried) at h) in
      (b, inr i, q, k)
]

Passed-passing : (run : CheckRunView) → Passed run → passing run ≡ true
unfolding passing is_passed
Passed-passing run h = rw h refl

carried-lookup :
    (from_head name : Text) (from : List (Text × CheckRunView)) (b : CheckRunView)
    → lookup name from ≡ some b
    → Passed b
    → carried from_head name from ≡ some (record b { copied_from_head_sha = from_head })
unfolding carried lookup
carried-lookup from_head name [] b h p = ground arith
carried-lookup from_head name ((key, run) ∷ from) b h p = elim (Bool-cases (text_eq key name)) [
  | inl e ↦
      let found : some run ≡ some b = rw (e, lookup) at h in
      let same : run ≡ b = cc in
      let passes = subst (λ (z : CheckRunView). passing z ≡ true) (sym same) (Passed-passing b p) in
      rw (e, passes, carried)
        (ap (λ (z : CheckRunView). some (record z { copied_from_head_sha = from_head })) same)
  | inr e ↦ rw (e, carried) (carried-lookup from_head name from b (rw (e, lookup) at h) p)
]

at_key-put :
    {V : Type 0} (k : Text) (m : List V) (d : List (Text × List V)) → at_key k (put k m d) ≡ m
at_key-put k m d =
    let hit : lookup k (put k m d) ≡ some m =
      lookup-put k k m d ∙ rw ((text_eq_iff k k).1 refl) refl in
    rw (hit, at_key) refl

-- The copy at the new head.
copied-lookup :
    (change_key from_head to_head name : Text) (s : MemStore)
    → run_at change_key to_head name (copy_passing_check_runs change_key from_head to_head s).1
      ≡ or_else
          (run_at change_key to_head name s)
          (carried from_head name (at_key (check_run_key change_key from_head) s.check_runs))
unfolding copy_passing_check_runs
copied-lookup change_key from_head to_head name s =
    let from = at_key (check_run_key change_key from_head) s.check_runs in
    let to = at_key (check_run_key change_key to_head) s.check_runs in
    ap (lookup name) (
      at_key-put (check_run_key change_key to_head) (copy_passing from_head from to).0 s.check_runs)
    ∙ copy_passing-lookup from_head name from to

-- The run is the one of that name at the old head, which passed, marked with that head.
abbrev pub IsCopy : Text → Text → Text → MemStore → CheckRunView → Type 0
IsCopy change_key from_head name s r =
    (b : CheckRunView) × (run_at change_key from_head name s ≡ some b)
    × Passed b
    × (r ≡ record b { copied_from_head_sha = from_head })

-- Where the old head has one run of that name at most, a run stands at the rebased head after the
-- copy exactly if it was reported there, or none was and it is the run of that name at the old
-- head, completed with success and marked with the head it comes from.
pub copy_passing_check_runs-carries :
    (change_key from_head to_head name : Text) (s : MemStore) (r : CheckRunView)
    → ((b : CheckRunView)
        → In (name, b) (at_key (check_run_key change_key from_head) s.check_runs)
        → run_at change_key from_head name s ≡ some b)
    → (run_at change_key to_head name (copy_passing_check_runs change_key from_head to_head s).1
        ≡ some r)
      ↔ ((run_at change_key to_head name s ≡ some r)
          ⊎ ((run_at change_key to_head name s ≡ none) × IsCopy change_key from_head name s r))
unfolding or_else
copy_passing_check_runs-carries change_key from_head to_head name s r single =
    let after = copied-lookup change_key from_head to_head name s in
    let from = at_key (check_run_key change_key from_head) s.check_runs in
    (
      λ h. elim (Option-cases (run_at change_key to_head name s)) [
        | inl e ↦
            let (b, i, p, q) =
              carried-found from_head name from r (rw (e, or_else) at (sym after ∙ h)) in
            inr (e, (b, single b i, p, q))
        | inr (t, e) ↦ inl (let k = rw (e, or_else) at (sym after ∙ h) in e ∙ k)
      ],
      λ h. elim h [
        | inl kept ↦ after ∙ rw (kept, or_else) refl
        | inr (e, (b, at, p, q)) ↦
            after ∙ rw (e, or_else) (carried-lookup from_head name from b at p ∙ ap some (sym q))
      ],
    )

-- A report is what its check's run is from then on.
pub upsert_check_run-run_at :
    (change_key head_sha : Text) (run : CheckRunView) (now : ℕ) (s : MemStore)
    → (r : CheckRunView) × (run_at change_key head_sha run.name
          (upsert_check_run change_key head_sha run now s)
        ≡ some r)
      × (r.status ≡ run.status)
      × (r.conclusion ≡ run.conclusion)
      × (r.reporter ≡ run.reporter)
unfolding upsert_check_run filled_in
upsert_check_run-run_at change_key head_sha run now s =
    let runs = at_key (check_run_key change_key head_sha) s.check_runs in
    let stored = filled_in run (lookup run.name runs) now in
    (
      stored,
      ap (lookup run.name)
            (at_key-put (check_run_key change_key head_sha) (put run.name stored runs) s.check_runs)
          ∙ (lookup-put run.name run.name stored runs
              ∙ rw ((text_eq_iff run.name run.name).1 refl) refl),
      refl,
      refl,
      refl,
    )
