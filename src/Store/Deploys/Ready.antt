-- ===== src/Store/Deploys/Ready.antt =====
-- When deploy.images_ready is announced.
use runko.Prelude.{
  ℕ, ◌+◌, ◌≡◌, refl, ap, ◌∙◌, ◌≢◌, inl, inr, Bool, true, false, Option, none, some, List, [], ◌∷◌,
  map, arith, Bool-cases, all, Text, text_eq, text_eq_iff, mem, lookup, put, lookup-put,
  if◌then◌else◌,
}
use runko.Store.Model.{DeployImageRow, DeployRecord, MemStore}
use runko.Store.Deploys.{
  DeployView, mem_deploy_to_domain, has_key, deploy_complete, report, record_deploy_image,
  open_deploy_record,
}

has_key-put :
    {V : Type 0} (k j : Text) (v : V) (d : List (Text × V))
    → has_key (put k v d) j ≡ (if text_eq k j then true else has_key d j)
unfolding has_key
has_key-put k j v d = elim (Bool-cases (text_eq k j)) [
  | inl e ↦
      let q : lookup j (put k v d) ≡ some v = lookup-put k j v d ∙ rw e refl in
      rw (q, e, has_key) refl
  | inr e ↦
      let q : lookup j (put k v d) ≡ lookup j d = lookup-put k j v d ∙ rw e refl in
      rw (q, e, has_key) refl
]

-- A further report leaves what is complete complete.
complete-put :
    (expected : List Text) (k : Text) (i : DeployImageRow) (d : List (Text × DeployImageRow))
    → deploy_complete expected d ≡ true
    → deploy_complete expected (put k i d) ≡ true
unfolding deploy_complete
complete-put [] k i d h = refl
complete-put (e ∷ expected) k i d h =
    ground (arith, has_key-put k e i d, complete-put expected k i d)

-- A record is ready exactly when it is complete.
abbrev Settled : DeployRecord → Type 0
Settled r = r.ready ≡ deploy_complete r.expected r.reported

bool_count : Bool → ℕ
bool_count true = 1
bool_count false = 0

report-Settled :
    (img : DeployImageRow) (r : DeployRecord)
    → Settled r
    → Settled (report img r).0
      × (bool_count r.ready + bool_count (report img r).1 ≡ bool_count (report img r).0.ready)
unfolding report bool_count
report-Settled img r h =
    let k = complete-put r.expected img.image img r.reported in
    elim (Bool-cases (deploy_complete r.expected (put img.image img r.reported))) [
      | inl e ↦ (ground arith, ground arith)
      | inr e ↦ (ground arith, ground arith)
    ]

-- Reports for one record, one after the other: how many of them announce it as ready.
reports : List DeployImageRow → DeployRecord → ℕ × DeployRecord
unfolding bool_count report
reports [] r = (0, r)
reports (img ∷ imgs) r =
    let (r', now_ready) = report img r in
    let (n, last) = reports imgs r' in (bool_count now_ready + n, last)

reports-Settled :
    (imgs : List DeployImageRow) (r : DeployRecord)
    → Settled r
    → Settled (reports imgs r).1
      × (bool_count r.ready + (reports imgs r).0 ≡ bool_count (reports imgs r).1.ready)
unfolding reports
reports-Settled [] r h = (h, omega arith)
reports-Settled (img ∷ imgs) r h =
    let (k, e) = report-Settled img r h in
    let (l, f) = reports-Settled imgs (report img r).0 k in (l, omega (arith, e, f))

reports-reported :
    (imgs : List DeployImageRow) (r : DeployRecord) (j : Text)
    → ((reports imgs r).1.expected ≡ r.expected)
      × (has_key (reports imgs r).1.reported j
          ≡ (if mem j (map (λ i. i.image) imgs) then true else has_key r.reported j))
unfolding reports report mem
reports-reported [] r j = (refl, refl)
reports-reported (img ∷ imgs) r j =
    let (e, f) = reports-reported imgs (report img r).0 j in
    (e, ground (arith, f, has_key-put img.image j img r.reported))

complete-all :
    (expected : List Text) (d : List (Text × DeployImageRow)) (names : List Text)
    → ((j : Text) → has_key d j ≡ mem j names)
    → deploy_complete expected d ≡ all (λ j. mem j names) expected
unfolding deploy_complete all
complete-all [] d names h = refl
complete-all (e ∷ expected) d names h = ground (arith, h e, complete-all expected d names h)

-- RecordDeployImage for one trunk commit, image by image: how often it announces the record.
pub announcements : Text → List DeployImageRow → MemStore → ℕ
unfolding bool_count record_deploy_image
announcements trunk_sha [] s = 0
announcements trunk_sha (img ∷ imgs) s =
    let rest = announcements trunk_sha imgs (record_deploy_image trunk_sha img s).1 in
    elim (record_deploy_image trunk_sha img s).0 [
      | none ↦ rest
      | some (view, now_ready) ↦ bool_count now_ready + rest
    ]

announcements-reports :
    (trunk_sha : Text) (imgs : List DeployImageRow) (s : MemStore) (r : DeployRecord)
    → lookup trunk_sha s.deploy_records ≡ some r
    → announcements trunk_sha imgs s ≡ (reports imgs r).0
unfolding announcements reports record_deploy_image
announcements-reports trunk_sha [] s r h = refl
announcements-reports trunk_sha (img ∷ imgs) s r h =
    let next : MemStore = record s {
      deploy_records = put trunk_sha (report img r).0 s.deploy_records;
    } in
    let stored : lookup trunk_sha next.deploy_records ≡ some (report img r).0 =
      lookup-put trunk_sha trunk_sha (report img r).0 s.deploy_records
      ∙ rw ((text_eq_iff trunk_sha trunk_sha).1 refl) refl in
    let rest = announcements-reports trunk_sha imgs next (report img r).0 stored in
    let step : record_deploy_image trunk_sha img s
        ≡ (some (mem_deploy_to_domain trunk_sha (report img r).0, (report img r).1), next) =
      rw (h, record_deploy_image) refl in
    let after : (record_deploy_image trunk_sha img s).1 ≡ next =
      ap (λ (p : Option (DeployView × Bool) × MemStore). p.1) step in
    rw (announcements, step, after, rest) refl

-- A deploy record that is opened for a non-empty list of images is announced as ready exactly once
-- over any sequence of reports that names each expected image, in whatever order and however
-- often, and never by one that misses some.
pub announcements_once :
    (trunk_sha change_key provenance : Text) (expected : List Text) (now : ℕ) (s : MemStore)
    → (imgs : List DeployImageRow) → lookup trunk_sha s.deploy_records ≡ none
    → expected ≢ []
    → announcements trunk_sha imgs
        (open_deploy_record trunk_sha change_key provenance expected now s)
      ≡ (if all (λ j. mem j (map (λ i. i.image) imgs)) expected then 1 else 0)
unfolding open_deploy_record bool_count has_key deploy_complete
announcements_once trunk_sha change_key provenance [] now s imgs h n = absurd (n refl)
announcements_once trunk_sha change_key provenance (e ∷ expected) now s imgs h n =
    let r : DeployRecord = record {
      change_key = change_key;
      expected = e ∷ expected;
      provenance = provenance;
      reported = [];
      ready = false;
      created_at = now;
    } in
    let s' : MemStore = record s { deploy_records = put trunk_sha r s.deploy_records } in
    let opened_at : open_deploy_record trunk_sha change_key provenance (e ∷ expected) now s ≡ s' =
      rw (h, open_deploy_record, has_key) refl in
    let stored : lookup trunk_sha s'.deploy_records ≡ some r =
      lookup-put trunk_sha trunk_sha r s.deploy_records
      ∙ rw ((text_eq_iff trunk_sha trunk_sha).1 refl) refl in
    let (settled, count) = reports-Settled imgs r refl in
    let kept : (reports imgs r).1.expected ≡ e ∷ expected = (reports-reported imgs r []).0 in
    let whole =
      complete-all (e ∷ expected) (reports imgs r).1.reported (map (λ i. i.image) imgs)
        (λ j. (reports-reported imgs r j).1 ∙ plain (mem j (map (λ i. i.image) imgs))) in
    let total = announcements-reports trunk_sha imgs s' r stored in
    let bridge : 0 + (reports imgs r).0
        ≡ (if all (λ j. mem j (map (λ i. i.image) imgs)) (e ∷ expected) then 1 else 0) =
      count
      ∙ (ap bool_count (
            settled
            ∙ (ap (λ (l : List Text). deploy_complete l (reports imgs r).1.reported) kept ∙ whole))
          ∙ counted (all (λ j. mem j (map (λ i. i.image) imgs)) (e ∷ expected))) in
    ap (announcements trunk_sha imgs) opened_at ∙ (total ∙ omega (arith, bridge))
  where
    plain : (b : Bool) → (if b then true else false) ≡ b
    plain true = refl
    plain false = refl

    counted : (b : Bool) → bool_count b ≡ (if b then 1 else 0)
    counted true = refl
    counted false = refl
