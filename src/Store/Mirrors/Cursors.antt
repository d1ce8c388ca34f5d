-- ===== src/Store/Mirrors/Cursors.antt =====
-- Which cursor the mirror's methods write, by the keys of mirrorKey.
use runko.Prelude.{
  ◌≡◌, refl, ◌∙◌, true, false, ◌&&◌, some, [], ◌∷◌, ℕ, arith, ltb, if◌then◌else◌, all, Text,
  text_eq, lookup, put, lookup-put,
}
use runko.Store.Model.{MirrorCursor, MemStore}
use runko.Store.Mirrors.{
  mirror_key, synced, get_mirror_cursor, upsert_mirror_cursor, freeze_mirror_cursor,
}

-- A name without the separator of mirrorKey, the code point 0.
abbrev pub HasNoNul : Text → Type 0
HasNoNul remote = all (λ c. ltb 0 c) remote ≡ true

mirror_key-text_eq :
    (r r' f f' : Text)
    → HasNoNul r
    → HasNoNul r'
    → text_eq (mirror_key r f) (mirror_key r' f') ≡ (text_eq r r' && text_eq f f')
unfolding mirror_key text_eq all
mirror_key-text_eq [] [] f f' h k = refl
mirror_key-text_eq [] (b ∷ r') f f' h k = ground arith
mirror_key-text_eq (a ∷ r) [] f f' h k = ground arith
mirror_key-text_eq (a ∷ r) (b ∷ r') f f' h k =
    let e = mirror_key-text_eq r r' f f' (ground arith) (ground arith) in ground arith

-- Where no remote has the separator in its name, the cursor of a remote's ref is the one last
-- written for them: an upsert stores the synced commit and thaws the cursor, a freeze keeps the
-- commit it was at, and both leave the cursor of every other remote and ref alone.
pub get_mirror_cursor-written :
    (remote ref remote' ref' sha : Text) (now : ℕ) (s : MemStore)
    → HasNoNul remote
    → HasNoNul remote'
    → (get_mirror_cursor remote' ref' (upsert_mirror_cursor remote ref sha now s) ≡ (
        if text_eq remote remote' && text_eq ref ref'
        then some (record { ref = ref; last_synced_sha = sha; frozen = false; updated_at = now })
        else get_mirror_cursor remote' ref' s))
      × (get_mirror_cursor remote' ref' (freeze_mirror_cursor remote ref now s) ≡ (
          if text_eq remote remote' && text_eq ref ref'
          then some (record {
            ref = ref;
            last_synced_sha = synced (get_mirror_cursor remote ref s);
            frozen = true;
            updated_at = now;
          })
          else get_mirror_cursor remote' ref' s))
unfolding get_mirror_cursor upsert_mirror_cursor freeze_mirror_cursor
get_mirror_cursor-written remote ref remote' ref' sha now s h k =
    let e = mirror_key-text_eq remote remote' ref ref' h k in
    let written : (c : MirrorCursor)
        → lookup (mirror_key remote' ref') (put (mirror_key remote ref) c s.mirrors) ≡ (
            if text_eq remote remote' && text_eq ref ref'
            then some c
            else lookup (mirror_key remote' ref') s.mirrors) =
      λ c. lookup-put (mirror_key remote ref) (mirror_key remote' ref') c s.mirrors ∙ rw e refl in
    (
      written (record { ref = ref; last_synced_sha = sha; frozen = false; updated_at = now }),
      written (record {
        ref = ref;
        last_synced_sha = synced (lookup (mirror_key remote ref) s.mirrors);
        frozen = true;
        updated_at = now;
      }),
    )
