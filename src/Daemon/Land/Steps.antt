-- ===== src/Daemon/Land/Steps.antt =====
-- A land is a sequence of calls of the store.
use runko.Prelude.{◌≡◌, sym, ap, subst, ◌∙◌, inl, inr, Bool, Option, Text}
use runko.Store.Model.{Change, MemStore}
use runko.Store.Lifecycle.{Steps, none_yet, and_then, marked_landed, elsewhere}
use runko.Daemon.Config.{Principal, BotLane, Server}
use runko.Daemon.Land.{Decision, LandDecision, World, after_land, lander, land_change_core}
use runko.Daemon.Land.Cases.{land_change_core_cases}
use runko.Daemon.Land.Sound.{after_land-same}

pub land_change_core-Steps :
    (sha256_hex : Text → Text) (s : Server) (w : World) (key : Text) (change : Change)
    (lane : Option BotLane) (principal : Option Principal) (force : Bool) (store : MemStore)
    → Steps store (land_change_core sha256_hex s w key change lane principal force store).1
land_change_core-Steps sha256_hex s w key change lane principal force store =
    elim (land_change_core_cases s w key change sha256_hex lane principal force store) [
      | inl (kept, _) ↦ subst (λ (z : MemStore). Steps store z) (sym kept) none_yet
      | inr (e, x, p, q, passed) ↦
          let (g, gate, through, concluded) = passed in
          let (o, c, s1, a, ol, m, r) = concluded in
          let left : (land_change_core sha256_hex s w key change lane principal force store).1
              ≡ after_land s w key change (lander principal lane) o.landed_sha s1 =
            ap (λ (z : Decision LandDecision × MemStore). z.1) r in
          and_then (and_then none_yet (marked_landed key o.landed_sha _ _ w.now c m)) (
            elsewhere (
              ap (λ (z : MemStore). z.changes) left
              ∙ after_land-same s w key change (lander principal lane) o.landed_sha s1))
    ]
