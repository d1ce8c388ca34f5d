-- ===== src/Store/Reviews.antt =====
-- The methods of approvals, comments and review requests. A page's offset and limit below 0 are 0.
pub mod Pages
use runko.Prelude.{
  ℕ, zero, suc, Bool, true, false, ◌&&◌, Option, none, some, List, [], ◌∷◌, ◌++◌, ltb, leb, ◌==◌,
  length, all, Text, lookup, put, values, sort_by, if◌then◌else◌,
}
use runko.Store.Model.{
  Approval, Comment, ReviewRequest, MemStore, Answer, no_such_change, no_such_comment, done, at_key,
}

-- whether the change exists, as the guard of each method asks
known : Text → MemStore → Bool
unfolding lookup
known key s = elim (lookup key s.changes) [ none ↦ false | some c ↦ true ]

-- RecordApproval
unfoldable pub record_approval : Text → Text → Text → Text → MemStore → Answer MemStore
unfolding known put
record_approval key owner_ref approved_by head_sha s =
    if known key s
    then done (record s {
      approvals =
          put key
            (put owner_ref
              (record { owner_ref = owner_ref; approved_by = approved_by; head_sha = head_sha })
              (at_key key s.approvals))
            s.approvals;
    })
    else no_such_change

-- ListApprovals
unfoldable pub list_approvals : Text → MemStore → List Approval
unfolding values sort_by
list_approvals key s = sort_by (λ a. a.owner_ref) (values (at_key key s.approvals))

-- CreateComment: the number and the time are the store's
unfoldable pub create_comment : Text → Comment → ℕ → MemStore → Answer (Comment × MemStore)
unfolding known put
create_comment key c now s =
    let c' = record c { id = suc s.next_id; created_at = now } in
    if known key s
    then done (
      c',
      record s {
        next_id = suc s.next_id;
        comments = put key (at_key key s.comments ++ c' ∷ []) s.comments;
      },
    )
    else no_such_change

unfoldable pub drop : {A : Type 0} → ℕ → List A → List A
drop zero xs = xs
drop (suc n) [] = []
drop (suc n) (x ∷ xs) = drop n xs

unfoldable pub take : {A : Type 0} → ℕ → List A → List A
take zero xs = []
take (suc n) [] = []
take (suc n) (x ∷ xs) = x ∷ take n xs

-- the slicing of ListComments, ListChangesPage and ListReleases
unfoldable pub page : {A : Type 0} → List A → ℕ → ℕ → List A
unfolding drop take
page all limit offset =
    let rest = drop offset all in
    if leb (length all) offset
    then []
    else if ltb 0 limit && ltb limit (length rest)
    then take limit rest
    else rest

-- ListComments
unfoldable pub list_comments : Text → ℕ → ℕ → MemStore → List Comment
unfolding page
list_comments key limit offset s = page (at_key key s.comments) limit offset

find_comment : ℕ → List Comment → Option Comment
find_comment id [] = none
find_comment id (c ∷ cs) = if c.id == id then some c else find_comment id cs

-- GetComment
unfoldable pub get_comment : Text → ℕ → MemStore → Option Comment
unfolding find_comment
get_comment key id s = find_comment id (at_key key s.comments)

-- the list with the first comment of that id changed, if there is one
pub resolve : ℕ → Bool → List Comment → Option (List Comment)
resolve id b [] = none
resolve id b (c ∷ cs) =
    let rest = resolve id b cs in
    if c.id == id
    then some (record c { resolved = b } ∷ cs)
    else elim rest [ none ↦ none | some cs' ↦ some (c ∷ cs') ]

-- SetCommentResolved
unfoldable pub set_comment_resolved : Text → ℕ → Bool → MemStore → Answer MemStore
unfolding resolve put
set_comment_resolved key id b s = elim (resolve id b (at_key key s.comments)) [
  | none ↦ no_such_comment
  | some cs ↦ done (record s { comments = put key cs s.comments })
]

created_or : ℕ → Option ReviewRequest → ℕ
created_or now none = now
created_or now (some r) = r.created_at

-- UpsertReviewRequest: asking again keeps the time of the first request
unfoldable pub upsert_review_request : Text → Text → Text → ℕ → MemStore → Answer MemStore
unfolding known put lookup created_or
upsert_review_request key reviewer requested_by now s =
    let asked = at_key key s.review_reqs in
    if known key s
    then done (record s {
      review_reqs =
          put key
            (put reviewer
              (record {
                reviewer = reviewer;
                requested_by = requested_by;
                created_at = created_or now (lookup reviewer asked);
              })
              asked)
            s.review_reqs;
    })
    else no_such_change

-- ListReviewRequests
unfoldable pub list_review_requests : Text → MemStore → List ReviewRequest
unfolding values sort_by
list_review_requests key s = sort_by (λ r. r.reviewer) (values (at_key key s.review_reqs))
