-- ===== src/Daemon/Gate/Attention.antt =====
-- runkod/review.go: attentionSet. A set of names is the list of its keys.
use runko.Prelude.{
  Bool, true, false, not, ◌&&◌, ◌||◌, none, some, List, [], ◌∷◌, ◌++◌, map, any, keep, is_empty,
  Text, codes, text_eq, mem, cut_prefix, dedup_sorted, if◌then◌else◌,
}
use runko.Checks.Requirements.{OwnerRequirement}
use runko.Store.Model.{Change, Comment, ReviewRequest}

-- the comments on the current head
current_comments : Text → List Comment → List Comment
unfolding keep text_eq
current_comments head_sha = keep (λ c. text_eq c.head_sha head_sha)

-- whether a required owner's turn it is
owner_waits : Text → List Text → OwnerRequirement → Bool
unfolding cut_prefix text_eq mem
owner_waits author commented o =
    if o.satisfied then false else elim (cut_prefix (codes "user:") o.owner_ref) [
      | none ↦ true
      | some name ↦ not (text_eq name author) && not (mem name commented)
    ]

-- attentionSet
unfoldable pub attention_set :
    Change → List OwnerRequirement → List ReviewRequest → List Comment → List Text
unfolding current_comments owner_waits keep any mem text_eq dedup_sorted
attention_set change owners requests comments =
    let current = current_comments change.head_sha comments in
    let commented = map (λ c. c.author) current in
    let responded =
      any (λ c. not (text_eq c.author change.authored_by)) current
      || any (λ o. o.satisfied) owners in
    let reviewers =
      keep (λ r. not (text_eq r.reviewer change.authored_by) && not (mem r.reviewer commented))
        requests in
    let waiting = keep (owner_waits change.authored_by commented) owners in
    dedup_sorted (
      map (λ r. r.reviewer) reviewers
      ++ (map (λ o. o.owner_ref) waiting
          ++ (if responded && not (is_empty change.authored_by)
              then change.authored_by ∷ []
              else [])))
