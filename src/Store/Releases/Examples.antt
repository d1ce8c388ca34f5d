-- ===== src/Store/Releases/Examples.antt =====
-- A store with two releases of a project, on which the result on releases applies.
use runko.Prelude.{◌≡◌, refl, some, [], ◌∷◌, codes, mem, lookup}
use runko.Store.Model.{Release, MemStore, new_mem_store, at_key}
use runko.Store.Releases.{create_release, get_latest_release}
use runko.Store.Releases.Versions.{UniqueVersions, create_release-UniqueVersions}

abbrev first_release : Release
first_release = record {
  project_name = codes "lib";
  project_path = codes "libs/lib";
  version = codes "v1";
  tag_ref = codes "refs/tags/lib/v1";
  tag_sha = codes "s";
  target_sha = codes "c";
  head_change_key = codes "I1";
  changelog = [];
  created_by = codes "ann";
  created_at = 5;
}

abbrev second_release : Release
second_release = record first_release { version = codes "v2"; created_at = 9 }

abbrev released : MemStore
released = record new_mem_store { releases = (codes "lib", first_release ∷ []) ∷ [] }

abbrev released_twice : MemStore
released_twice = record new_mem_store {
  releases = (codes "lib", first_release ∷ second_release ∷ []) ∷ [];
}

create_release-UniqueVersions_example :
    (get_latest_release (codes "lib") released_twice ≡ some second_release)
    × UniqueVersions (at_key (codes "lib") released_twice.releases)
unfolding create_release lookup mem
create_release-UniqueVersions_example =
    create_release-UniqueVersions (record second_release { created_at = 0 }) second_release 9
      released released_twice (codes "lib") refl (refl, tt)
