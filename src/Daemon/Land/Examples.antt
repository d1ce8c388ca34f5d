-- ===== src/Daemon/Land/Examples.antt =====
-- A forced land on the daemon of the fixtures, and one that is refused.
use runko.Prelude.{
  ◌≡◌, ◌≢◌, ◌⊎◌, inl, inr, refl, ap, Bool-cases, Bool, true, false, not, none, some, [], ◌∷◌, Text,
  codes, lookup, arith,
}
use runko.Land.Attempt.{Outcome}
use runko.Land.Attempt.Retry.{attempt_land}
use runko.Store.Changes.{mark_change_landed}
use runko.Store.Model.{opened, landed, abandoned, Change, MemStore}
use runko.Daemon.Repo.{affected_of, compute_affected}
use runko.Daemon.Gate.{GateView, gate_view, merge_requirements}
use runko.Daemon.Land.{
  Decision, decided, LandDecision, no_decision, force_denied_to, refuse_unlanded_parent,
  lane_refusal, attempt_under, gated, conclude, land_in, land_change_core,
}
use runko.Daemon.Land.Sound.{land_change_core_sound, land_change_core-unlanded}
use runko.Daemon.Fixtures.{ann, test_server, lib, test_repo, bottom, test_store, test_world}

abbrev hash : Text → Text
hash t = t

abbrev land_of : Change → Bool → Decision LandDecision × MemStore
land_of c force =
    land_change_core hash test_server test_world c.change_key c none (some ann) force test_store

-- what the gate says of the change at the bottom
abbrev the_gate : GateView
the_gate =
    gate_view none test_server test_repo test_store 7 bottom
      (affected_of hash test_server (lib ∷ []) (codes "l/f" ∷ [])) (lib ∷ [])

abbrev the_land : LandDecision
the_land = record no_decision {
  has_landed = true;
  landed_sha = codes "c";
  forced = not the_gate.mergeable;
}

gated_through :
    (g : GateView)
    → (gated test_server test_world none
        (some ann)
        bottom.change_key
        bottom
        true
        (some g)
        test_store).0
      ≡ decided (record no_decision {
        has_landed = true;
        landed_sha = codes "c";
        forced = not g.mergeable;
      })
unfolding gated conclude attempt_under attempt_land mark_change_landed lookup
gated_through g = elim (Bool-cases g.mergeable) [
  | inl e ↦ rw (e, gated) refl
  | inr e ↦ rw (e, gated) refl
]

lands : land_of bottom true ≡ (decided the_land, (land_of bottom true).1)
unfolding land_change_core land_in force_denied_to refuse_unlanded_parent merge_requirements
    compute_affected
lands = ap (λ (z : Decision LandDecision). (z, (land_of bottom true).1)) (gated_through the_gate)

opened-landed : opened ≢ landed
opened-landed e = ground arith

land_change_core_sound_example :
    (bottom.state ≡ opened)
    × (refuse_unlanded_parent test_repo test_store bottom ≡ none)
    × (lane_refusal hash test_server test_repo none bottom ≡ none)
    × ((g : GateView) × (merge_requirements hash none test_server test_repo test_store 7 bottom
          ≡ some g)
        × (((g.mergeable ≡ true) × (the_land.forced ≡ false))
            ⊎ ((g.mergeable ≡ false)
                × (true ≡ true)
                × (force_denied_to (some ann) none ≡ false)
                × (the_land.forced ≡ true))))
    × ((o : Outcome) × (attempt_under test_server test_world bottom true ≡ some o)
        × (o.landed ≡ true)
        × (the_land.landed_sha ≡ o.landed_sha))
    × ((c : Change) × (lookup bottom.change_key (land_of bottom true).1.changes ≡ some c)
        × (c.state ≡ landed)
        × (c.landed_sha ≡ the_land.landed_sha)
        × (c.landed_forced ≡ the_land.forced))
land_change_core_sound_example =
    land_change_core_sound hash test_server test_world bottom.change_key bottom none (some ann) true
      test_store the_land (land_of bottom true).1 lands refl opened-landed

abbrev gone : Change
gone = record bottom { state = abandoned }

land_change_core-unlanded_example : (land_of gone false).1 ≡ test_store
unfolding land_change_core
land_change_core-unlanded_example =
    land_change_core-unlanded hash test_server test_world gone.change_key gone none (some ann) false
      test_store (λ r. r)
