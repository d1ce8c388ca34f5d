-- ===== src/Daemon/Carry/Approvals.antt =====
-- Which approvals a trivial rebase carries to the new head.
use runko.Prelude.{
  ◌≡◌, refl, sym, ◌∙◌, ◌⊎◌, inl, inr, some, List, [], ◌∷◌, In, Bool-cases, Text, text_eq,
  text_eq_iff, lookup,
}
use runko.Affected.Types.{Result}
use runko.Index.Types.{IndexedProject}
use runko.Store.Model.{Change, Approval, MemStore, at_key}
use runko.Store.Reviews.{record_approval, list_approvals}
use runko.Store.Reviews.Pages.{record_approval_cases, record_approval-approvals}
use runko.Store.CheckRuns.{copy_passing_check_runs}
use runko.Daemon.Config.{resolve_revalidation}
use runko.Daemon.Carry.{
  Processor, is_conflict_only, recorded_or, carry_approvals, carry_forward_trivial_rebase,
}

-- The approval is one that the list has for this owner and for the old head, bound to the new head.
abbrev pub IsCarried : Text → Text → List Approval → Text → Approval → Type 0
IsCarried old_head new_head approvals o a =
    (b : Approval) × In b approvals
    × (b.head_sha ≡ old_head)
    × (b.owner_ref ≡ o)
    × (a ≡ record b { head_sha = new_head })

-- an approval that stands after one recording
recorded_one :
    (key o : Text) (b a : Approval) (new_head : Text) (s : MemStore)
    → lookup o (
        at_key key
          (recorded_or (record_approval key b.owner_ref b.approved_by new_head s) s).approvals)
      ≡ some a
    → (lookup o (at_key key s.approvals) ≡ some a)
      ⊎ ((b.owner_ref ≡ o) × (a ≡ record b { head_sha = new_head }))
unfolding recorded_or
recorded_one key o b a new_head s h =
    elim (record_approval_cases key b.owner_ref b.approved_by new_head s) [
      | inl e ↦ inl (rw (e, recorded_or) at h)
      | inr (s', e) ↦
          let at : lookup o (at_key key s'.approvals) ≡ some a = rw (e, recorded_or) at h in
          let what =
            sym (record_approval-approvals key b.owner_ref b.approved_by new_head key o s s' e)
            ∙ at in
          elim (Bool-cases (text_eq b.owner_ref o)) [
            | inl t ↦
                let made : some (record b { head_sha = new_head }) ≡ some a =
                  rw (t, (text_eq_iff key key).1 refl) at what in
                let same : record b { head_sha = new_head } ≡ a = cc in
                inr ((text_eq_iff b.owner_ref o).0 t, sym same)
            | inr t ↦ inl (rw (t, (text_eq_iff key key).1 refl) at what)
          ]
    ]

carry_approvals-IsCarried :
    (key old_head new_head o : Text) (approvals : List Approval) (a : Approval) (s : MemStore)
    → lookup o (at_key key (carry_approvals key old_head new_head approvals s).approvals) ≡ some a
    → (lookup o (at_key key s.approvals) ≡ some a) ⊎ IsCarried old_head new_head approvals o a
unfolding carry_approvals
carry_approvals-IsCarried key old_head new_head o [] a s h = inl h
carry_approvals-IsCarried key old_head new_head o (b ∷ approvals) a s h =
    elim (Bool-cases (text_eq b.head_sha old_head)) [
      | inl e ↦
          elim (carry_approvals-IsCarried key old_head new_head o approvals a
            (recorded_or (record_approval key b.owner_ref b.approved_by new_head s) s)
            (rw (e, carry_approvals) at h)) [
              | inl at ↦ elim (recorded_one key o b a new_head s at) [
                | inl k ↦ inl k
                | inr (own, k) ↦ inr (b, inl refl, (text_eq_iff b.head_sha old_head).0 e, own, k)
              ]
              | inr (c, i, k, own, q) ↦ inr (c, inr i, k, own, q)
            ]
      | inr e ↦
          elim (carry_approvals-IsCarried key old_head new_head o approvals a s
            (rw (e, carry_approvals) at h)) [
              | inl k ↦ inl k
              | inr (c, i, k, own, q) ↦ inr (c, inr i, k, own, q)
            ]
    ]

-- After a trivial rebase every approval of the change, for whichever owner, is one that stood before
-- for that owner, or one that was given for that owner and for the old head, by the same approver,
-- and is now bound to the new head: no approval of another owner or of another head comes to count.
pub carry_forward_trivial_rebase-approvals :
    (p : Processor) (old updated : Change) (result : Result) (indexed : List IndexedProject)
    (store : MemStore) (o : Text) (a : Approval)
    → lookup o (
        at_key updated.change_key
          (carry_forward_trivial_rebase p old updated result indexed store).1.approvals)
      ≡ some a
    → (lookup o (at_key updated.change_key store.approvals) ≡ some a)
      ⊎ IsCarried old.head_sha updated.head_sha (list_approvals updated.change_key store) o a
unfolding carry_forward_trivial_rebase copy_passing_check_runs
carry_forward_trivial_rebase-approvals p old updated result indexed store o a h =
    elim (Bool-cases (is_conflict_only (resolve_revalidation p.settings p.revalidation))) [
      | inl e ↦
          carry_approvals-IsCarried updated.change_key old.head_sha updated.head_sha o _ a store
            (rw (e, carry_forward_trivial_rebase) at h)
      | inr e ↦
          carry_approvals-IsCarried updated.change_key old.head_sha updated.head_sha o _ a store
            (rw (e, carry_forward_trivial_rebase) at h)
    ]
