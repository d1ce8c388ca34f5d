-- ===== src/Land/Attempt/History.antt =====
-- Histories of lands: any number of landers, each with its own view of the trunk, old or new.
use runko.Prelude.{◌≡◌, refl, ap, ◌∙◌, ◌≢◌, ◌⊎◌, inl, inr, Option, none, some, [], ◌∷◌, arith, Text}
use runko.Land.Attempt.{Git, Request, Outcome, zero_oid, tip_text, land}
use runko.Land.Attempt.Planned.{FastForward, Rebased, IsRef}
use runko.Land.Attempt.Safety.{land_cases}

abbrev pub parent_ref : Text → Option Text
parent_ref [] = none
parent_ref (c ∷ s) = some (c ∷ s)

-- What git documents of `commit-tree`: the new commit has the parent given, and an object id.
pub record CommitLaws (git : Git) : Type 0 where
  pub parent_of : Text → Option Text
  pub parent : (tree p c : Text) → git.commit_tree tree p ≡ some c → parent_of c ≡ parent_ref p
  pub has_id : (tree p c : Text) → git.commit_tree tree p ≡ some c → (c ≢ zero_oid) × (c ≢ [])

-- The trunk `t` is `s` or has it among its ancestors.
pub data Descends (parent_of : Text → Option Text) (s : Option Text) : Option Text → Type 0 where
  same : Descends parent_of s s
  child :
      {t : Option Text} (c : Text)
      → Descends parent_of s t
      → parent_of c ≡ t
      → Descends parent_of s (some c)

-- a trunk ref: unborn, or at an object id
abbrev pub IsTrunk : Option Text → Type 0
IsTrunk trunk = (tip : Text) → trunk ≡ some tip → (tip ≢ zero_oid) × (tip ≢ [])

-- One land, on whatever the lander took for the trunk when it read the repository.
pub data Step (git : Git) (sha256_hex : Text → Text) (s : Option Text) : Option Text → Type 0 where
  attempt :
      {t : Option Text} (r : Request) (observed : Option Text)
      → IsTrunk observed
      → t ≡ (land git sha256_hex r observed s).1
      → Step git sha256_hex s t

pub data History (git : Git) (sha256_hex : Text → Text) (s : Option Text)
    : Option Text → Type 0 where
  start : History git sha256_hex s s
  then_land :
      {t u : Option Text}
      → History git sha256_hex s t
      → Step git sha256_hex t u
      → History git sha256_hex s u

module _ (git : Git) (sha256_hex : Text → Text) (laws : CommitLaws git) where
  is_ref : (t : Option Text) → IsTrunk t → IsRef t
  is_ref t h tip e = (h tip e).0

  parent_ref-tip : (t : Option Text) → IsTrunk t → parent_ref (tip_text t) ≡ t
  parent_ref-tip none h = refl
  parent_ref-tip (some []) h = absurd ((h [] refl).1 refl)
  parent_ref-tip (some (c ∷ s)) h = refl

  commit_child :
      (t : Option Text) (tree c : Text)
      → IsTrunk t
      → git.commit_tree tree (tip_text t) ≡ some c
      → laws.parent_of c ≡ t
  commit_child t tree c h e = laws.parent tree (tip_text t) c e ∙ parent_ref-tip t h

  commit-IsTrunk : (tree p c : Text) → git.commit_tree tree p ≡ some c → IsTrunk (some c)
  commit-IsTrunk tree p c e tip eq =
      let same_id : c ≡ tip = ground arith in rw (← same_id) (laws.has_id tree p c e)

  -- the commit behind either way to land
  committed :
      (r : Request) (t : Option Text) (c : Text)
      → FastForward git r t c ⊎ Rebased git sha256_hex r t c
      → (tree : Text) × (git.commit_tree tree (tip_text t) ≡ some c)
  committed r t c (inl (_, (tree, _, e))) = (tree, e)
  committed r t c (inr (tip, eq, _, _, (tree, _, e))) = (tree, rw eq e)

  Step-Descends :
      (parent : Option Text) {s t : Option Text}
      → IsTrunk s
      → Descends laws.parent_of parent s
      → Step git sha256_hex s t
      → IsTrunk t × Descends laws.parent_of parent t
  Step-Descends parent {s} h d (attempt r observed ho e) =
      elim (land_cases git sha256_hex r observed s (is_ref observed ho) (is_ref s h)) [
        | inr (kept, _) ↦ rw (e ∙ kept) (h, d)
        | inl (c, _, l, built) ↦
            let (tree, made) = committed r s c built in
            rw (e ∙ ap (λ (p : Option Outcome × Option Text). p.1) l)
              (commit-IsTrunk tree (tip_text s) c made, child c d (commit_child s tree c h made))
      ]

  -- Whatever the landers saw and in whatever order they land, the trunk only grows: the trunk
  -- before stays an ancestor of the trunk after, so no landed commit is ever lost.
  pub History-Descends :
      {s t : Option Text}
      → IsTrunk s
      → History git sha256_hex s t
      → IsTrunk t × Descends laws.parent_of s t
  History-Descends h start = (h, same)
  History-Descends {s} h (then_land rest step) =
      let (ht, d) = History-Descends h rest in Step-Descends s ht d step
