-- ===== src/Store/Reviews/Pages.antt =====
-- Paging through a listing, and what an approval changes.
use runko.Prelude.{
  ◌⊎◌, inl, inr, Bool, true, false, ℕ, zero, suc, ◌+◌, ◌*◌, ◌≤◌, ◌<◌, ◌≡◌, refl, sym, ap, ◌∙◌, inl,
  inr, true, false, ◌&&◌, some, List, [], ◌∷◌, ◌++◌, arith, ltb, leb, Bool-cases, length, all, Text,
  text_eq, text_eq_iff, lookup, put, lookup-put, if◌then◌else◌,
}
use mathlib.Core.List.{append_assoc, append-nil}
use runko.Store.Model.{Approval, MemStore, no_such_change, done, at_key}
use runko.Store.Reviews.{drop, take, page, known, record_approval}

-- The pages of a size, one after the other, from an offset on.
pub pages : {A : Type 0} → ℕ → List A → ℕ → ℕ → List A
unfolding page
pages zero all limit offset = []
pages (suc n) all limit offset = page all limit offset ++ pages n all limit (offset + limit)

drop-nil : {A : Type 0} (n : ℕ) (xs : List A) → xs ≡ [] → drop n xs ≡ []
unfolding drop
drop-nil zero xs e = e
drop-nil (suc n) [] e = refl
drop-nil (suc n) (x ∷ xs) e = ground arith

drop-add : {A : Type 0} (m n : ℕ) (xs : List A) → drop (m + n) xs ≡ drop n (drop m xs)
unfolding drop
drop-add zero n xs = let e : 0 + n ≡ n = omega arith in ap (λ k. drop k xs) e
drop-add (suc m) n [] = drop-nil (suc m + n) [] refl ∙ sym (drop-nil n [] refl)
drop-add (suc m) n (x ∷ xs) =
    let e : suc m + n ≡ suc (m + n) = omega arith in ap (λ k. drop k (x ∷ xs)) e ∙ drop-add m n xs

drop-all : {A : Type 0} (n : ℕ) (xs : List A) → length xs ≤ n → drop n xs ≡ []
unfolding drop
drop-all n [] h = drop-nil n [] refl
drop-all zero (x ∷ xs) h = ground arith
drop-all (suc n) (x ∷ xs) h = drop-all n xs (omega arith)

take-all : {A : Type 0} (n : ℕ) (xs : List A) → length xs ≤ n → take n xs ≡ xs
unfolding take
take-all zero [] h = refl
take-all zero (x ∷ xs) h = ground arith
take-all (suc n) [] h = refl
take-all (suc n) (x ∷ xs) h = ap (λ l. x ∷ l) (take-all n xs (omega arith))

take-drop : {A : Type 0} (n : ℕ) (xs : List A) → take n xs ++ drop n xs ≡ xs
unfolding take drop
take-drop zero xs = refl
take-drop (suc n) [] = refl
take-drop (suc n) (x ∷ xs) = ap (λ l. x ∷ l) (take-drop n xs)

page-take :
    {A : Type 0} (rows : List A) (limit offset : ℕ)
    → 0 < limit
    → page rows limit offset ≡ take limit (drop offset rows)
unfolding page
page-take rows limit offset h = elim (Bool-cases (leb (length rows) offset)) [
  | inl e ↦
      let gone = drop-all offset rows (ground arith) in
      rw (e, page, gone) (sym (take-all limit [] (omega arith)))
  | inr e ↦ elim (Bool-cases (ltb limit (length (drop offset rows)))) [
    | inl f ↦ let g : ltb 0 limit ≡ true = ground arith in rw (e, f, g, page) refl
    | inr f ↦
        let whole = take-all limit (drop offset rows) (ground arith) in
        let g : (ltb 0 limit && ltb limit (length (drop offset rows))) ≡ false = ground arith in
        rw (e, g, page) (sym whole)
  ]
]

pages-rest :
    {A : Type 0} (n : ℕ) (rows : List A) (limit offset : ℕ)
    → 0 < limit
    → pages n rows limit offset ++ drop (offset + n * limit) rows ≡ drop offset rows
unfolding pages drop
pages-rest zero rows limit offset h =
    let e : offset + 0 * limit ≡ offset = omega arith in ap (λ k. drop k rows) e
pages-rest (suc n) rows limit offset h =
    let e : offset + suc n * limit ≡ (offset + limit) + n * limit = grind arith in
    append_assoc (page rows limit offset) (pages n rows limit (offset + limit))
      (drop (offset + suc n * limit) rows)
    ∙ (ap (λ k. page rows limit offset ++ (pages n rows limit (offset + limit) ++ drop k rows)) e
        ∙ (ap (λ l. page rows limit offset ++ l) (pages-rest n rows limit (offset + limit) h)
            ∙ (ap (λ l. l ++ drop (offset + limit) rows) (page-take rows limit offset h)
                ∙ (ap (λ l. take limit (drop offset rows) ++ l) (drop-add offset limit rows)
                    ∙ take-drop limit (drop offset rows)))))

-- Asking page after page, with a positive limit, for enough of them, gives the whole listing, each
-- row once and in order.
pub pages-all :
    {A : Type 0} (n : ℕ) (rows : List A) (limit : ℕ)
    → 0 < limit
    → length rows ≤ n * limit
    → pages n rows limit 0 ≡ rows
unfolding drop
pages-all n rows limit h k =
    let e : 0 + n * limit ≡ n * limit = omega arith in
    let gone : drop (0 + n * limit) rows ≡ [] =
      ap (λ i. drop i rows) e ∙ drop-all (n * limit) rows k in
    sym (append-nil (pages n rows limit 0))
    ∙ (ap (λ l. pages n rows limit 0 ++ l) (sym gone) ∙ pages-rest n rows limit 0 h)

stored-lookup :
    (key owner_ref k o : Text) (a : Approval) (d : List (Text × List (Text × Approval)))
    → lookup o (at_key k (put key (put owner_ref a (at_key key d)) d))
      ≡ (if text_eq key k && text_eq owner_ref o then some a else lookup o (at_key k d))
stored-lookup key owner_ref k o a d = elim (Bool-cases (text_eq key k)) [
  | inl e ↦
      let hit : lookup k (put key (put owner_ref a (at_key key d)) d)
          ≡ some (put owner_ref a (at_key key d)) =
        lookup-put key k (put owner_ref a (at_key key d)) d ∙ rw e refl in
      let same : at_key key d ≡ at_key k d =
        ap (λ (z : Text). at_key z d) ((text_eq_iff key k).0 e) in
      rw (hit, e, at_key)
        (lookup-put owner_ref o a (at_key key d)
          ∙ ap (λ (m : List (Text × Approval)). if text_eq owner_ref o then some a else lookup o m)
              same)
  | inr e ↦
      let miss : lookup k (put key (put owner_ref a (at_key key d)) d) ≡ lookup k d =
        lookup-put key k (put owner_ref a (at_key key d)) d ∙ rw e refl in
      rw (e, miss, at_key) refl
]

guarded_cases :
    (b : Bool) (x : MemStore)
    → ((if b then done x else no_such_change) ≡ no_such_change)
      ⊎ ((y : MemStore) × ((if b then done x else no_such_change) ≡ done y))
guarded_cases true x = inr (x, refl)
guarded_cases false x = inl refl

pub record_approval_cases :
    (key owner_ref by sha : Text) (store : MemStore)
    → (record_approval key owner_ref by sha store ≡ no_such_change)
      ⊎ ((store' : MemStore) × (record_approval key owner_ref by sha store ≡ done store'))
unfolding record_approval
record_approval_cases key owner_ref by sha store = guarded_cases (known key store) _

-- Approvals: each owner's is the latest recorded, and nobody else's changes.
pub record_approval-approvals :
    (key owner_ref by sha k o : Text) (s s' : MemStore)
    → record_approval key owner_ref by sha s ≡ done s'
    → lookup o (at_key k s'.approvals) ≡ (
        if text_eq key k && text_eq owner_ref o
        then some (record { owner_ref = owner_ref; approved_by = by; head_sha = sha })
        else lookup o (at_key k s.approvals))
unfolding record_approval
record_approval-approvals key owner_ref by sha k o s s' h = elim (Bool-cases (known key s)) [
  | inr e ↦ let q : no_such_change ≡ done s' = rw (e, record_approval) at h in ground arith
  | inl e ↦
      let a : Approval = record { owner_ref = owner_ref; approved_by = by; head_sha = sha } in
      let stored = put key (put owner_ref a (at_key key s.approvals)) s.approvals in
      let q : done (record s { approvals = stored }) ≡ done s' = rw (e, record_approval) at h in
      let same : record s { approvals = stored } ≡ s' = cc in
      ap (λ (z : MemStore). lookup o (at_key k z.approvals)) (sym same)
      ∙ stored-lookup key owner_ref k o a s.approvals
]
