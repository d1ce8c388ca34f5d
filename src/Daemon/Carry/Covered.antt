-- ===== src/Daemon/Carry/Covered.antt =====
-- When a trivial rebase lets the new head go without a new run of the checks.
use runko.Prelude.{
  ◌≡◌, refl, sym, ap, ◌∙◌, ◌⊎◌, inl, inr, Bool, true, false, some, List, [], ◌∷◌, In, all, arith,
  Bool-cases, Option-cases, Text, text_eq, text_eq_iff, lookup, put, lookup-put, if◌then◌else◌,
}
use runko.Affected.Types.{Result}
use runko.Land.Revalidation.{
  RevalidationScope, conflict_only, affected_intersection, always, never, unset, other,
}
use runko.Checks.Runs.{CheckRunView, Standing, absent, running, passed, failed, standing_of}
use runko.Index.Types.{IndexedProject}
use runko.Store.Model.{Change, MemStore}
use runko.Store.CheckRuns.{list_check_runs}
use runko.Daemon.Config.{resolve_revalidation}
use runko.Daemon.Carry.{
  Processor, is_conflict_only, is_green, greens, is_green_in, carry_required, covers,
  carry_forward_trivial_rebase,
}

is_green-passed : (st : Standing) → is_green st ≡ true → st ≡ passed
unfolding is_green
is_green-passed passed h = refl
is_green-passed absent h = ground arith
is_green-passed running h = ground arith
is_green-passed failed h = ground arith

is_conflict_only-conflict_only :
    (x : RevalidationScope) → is_conflict_only x ≡ true → x ≡ conflict_only
unfolding is_conflict_only
is_conflict_only-conflict_only conflict_only h = refl
is_conflict_only-conflict_only affected_intersection h = ground arith
is_conflict_only-conflict_only always h = ground arith
is_conflict_only-conflict_only never h = ground arith
is_conflict_only-conflict_only unset h = ground arith
is_conflict_only-conflict_only other h = ground arith

-- Some run of that name has passed.
abbrev pub HasPassed : List CheckRunView → Text → Type 0
HasPassed runs n =
    (r : CheckRunView) × In r runs × (r.name ≡ n) × (standing_of r.status r.conclusion ≡ passed)

greens-lookup :
    (n : Text) (runs : List CheckRunView) (m : List (Text × Bool))
    → lookup n (greens runs m) ≡ some true
    → HasPassed runs n ⊎ (lookup n m ≡ some true)
unfolding greens
greens-lookup n [] m h = inr h
greens-lookup n (r ∷ runs) m h =
    let green = is_green (standing_of r.status r.conclusion) in
    elim (greens-lookup n runs (put r.name green m) h) [
      | inl (s, i, e, p) ↦ inl (s, inr i, e, p)
      | inr l ↦
          let at : (if text_eq r.name n then some green else lookup n m) ≡ some true =
            sym (lookup-put r.name n green m) ∙ l in
          elim (Bool-cases (text_eq r.name n)) [
            | inl e ↦
                let one : green ≡ true = ground arith in
                inl (
                  r,
                  inl refl,
                  (text_eq_iff r.name n).0 e,
                  is_green-passed (standing_of r.status r.conclusion) one,
                )
            | inr e ↦ inr (ground arith)
          ]
    ]

is_green_in-HasPassed :
    (n : Text) (runs : List CheckRunView) → is_green_in (greens runs []) n ≡ true → HasPassed runs n
unfolding is_green_in lookup
is_green_in-HasPassed n runs h = elim (Option-cases (lookup n (greens runs []))) [
  | inl e ↦ absurd (let q : false ≡ true = rw (e, is_green_in) at h in cc)
  | inr (b, e) ↦
      let q : b ≡ true = rw (e, is_green_in) at h in
      elim (greens-lookup n runs [] (e ∙ ap (λ z. some z) q)) [
        | inl found ↦ found
        | inr l ↦ absurd (ground arith)
      ]
]

all-In : {A : Type 0} (f : A → Bool) (x : A) (xs : List A) → all f xs ≡ true → In x xs → f x ≡ true
unfolding all
all-In f x [] h i = elim i [ ]
all-In f x (y ∷ ys) h (inl e) = ap f (sym e) ∙ ground arith
all-In f x (y ∷ ys) h (inr i) = all-In f x ys (ground arith) i

covers-HasPassed :
    (required : List Text) (runs : List CheckRunView) (n : Text)
    → covers required runs ≡ true
    → In n required
    → HasPassed runs n
unfolding covers
covers-HasPassed [] runs n h i = elim i [ ]
covers-HasPassed (x ∷ xs) runs n h i =
    is_green_in-HasPassed n runs (all-In (is_green_in (greens runs [])) n (x ∷ xs) h i)

-- A trivial rebase covers the new head, so that no check runs again, only under the tier that looks
-- at conflicts alone, and only if every check that the projects, the daemon and the org require has a
-- run at the new head that completed with success.
pub carry_forward_trivial_rebase-covered :
    (p : Processor) (old updated : Change) (result : Result) (indexed : List IndexedProject)
    (store : MemStore)
    → (carry_forward_trivial_rebase p old updated result indexed store).0 ≡ true
    → (resolve_revalidation p.settings p.revalidation ≡ conflict_only)
      × ((n : Text)
          → In n (carry_required p result indexed)
          → HasPassed
              (list_check_runs updated.change_key updated.head_sha
                (carry_forward_trivial_rebase p old updated result indexed store).1)
              n)
unfolding carry_forward_trivial_rebase
carry_forward_trivial_rebase-covered p old updated result indexed store h =
    elim (Bool-cases (is_conflict_only (resolve_revalidation p.settings p.revalidation))) [
      | inl e ↦ (
        is_conflict_only-conflict_only (resolve_revalidation p.settings p.revalidation) e,
        λ n i.
            rw (e, carry_forward_trivial_rebase)
              (covers-HasPassed (carry_required p result indexed) _ n
                (rw (e, carry_forward_trivial_rebase) at h) i),
      )
      | inr e ↦ absurd (let q : false ≡ true = rw (e, carry_forward_trivial_rebase) at h in cc)
    ]
