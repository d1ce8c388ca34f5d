-- ===== src/Store/Mirrors.antt =====
-- The mirror cursors' methods: GetMirrorCursor, ListMirrorCursors, UpsertMirrorCursor,
-- FreezeMirrorCursor.
pub mod Examples
pub mod Cursors
use runko.Prelude.{
  ℕ, true, false, Option, none, some, List, [], ◌∷◌, ◌++◌, if◌then◌else◌, Text, has_prefix, lookup,
  put, sort_by,
}
use runko.Store.Model.{MirrorCursor, MemStore}

-- mirrorKey
unfoldable pub mirror_key : Text → Text → Text
mirror_key remote ref = remote ++ (0 ∷ ref)

-- GetMirrorCursor
unfoldable pub get_mirror_cursor : Text → Text → MemStore → Option MirrorCursor
unfolding mirror_key lookup
get_mirror_cursor remote ref s = lookup (mirror_key remote ref) s.mirrors

under_remote : Text → List (Text × MirrorCursor) → List MirrorCursor
unfolding has_prefix
under_remote prefix [] = []
under_remote prefix ((key, c) ∷ d) =
    let rest = under_remote prefix d in if has_prefix prefix key then c ∷ rest else rest

-- ListMirrorCursors
unfoldable pub list_mirror_cursors : Text → MemStore → List MirrorCursor
unfolding under_remote sort_by
list_mirror_cursors remote s = sort_by (λ c. c.ref) (under_remote (remote ++ 0 ∷ []) s.mirrors)

-- UpsertMirrorCursor
unfoldable pub upsert_mirror_cursor : Text → Text → Text → ℕ → MemStore → MemStore
unfolding mirror_key put
upsert_mirror_cursor remote ref last_synced_sha now s = record s {
  mirrors =
      put (mirror_key remote ref)
        (record { ref = ref; last_synced_sha = last_synced_sha; frozen = false; updated_at = now })
        s.mirrors;
}

pub synced : Option MirrorCursor → Text
synced none = []
synced (some c) = c.last_synced_sha

-- FreezeMirrorCursor: a cursor that is not there is frozen with no commit
unfoldable pub freeze_mirror_cursor : Text → Text → ℕ → MemStore → MemStore
unfolding mirror_key put lookup synced
freeze_mirror_cursor remote ref now s = record s {
  mirrors =
      put (mirror_key remote ref)
        (record {
          ref = ref;
          last_synced_sha = synced (lookup (mirror_key remote ref) s.mirrors);
          frozen = true;
          updated_at = now;
        })
        s.mirrors;
}
