-- ===== src/Store/Mirrors/Examples.antt =====
-- A store with a mirror cursor, on which the result on cursors applies.
use runko.Prelude.{codes}
use runko.Store.Model.{MemStore, new_mem_store}
use runko.Store.Mirrors.{upsert_mirror_cursor}

-- a store that has a cursor of the ref "main" on the remote "hub"
abbrev mirrored : MemStore
mirrored = upsert_mirror_cursor (codes "hub") (codes "main") (codes "a1") 3 new_mem_store
