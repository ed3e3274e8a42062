-- ===== src/Indexing/Superseding.antt =====
-- indexing/service.py: `_supersede_prior_versions`.
pub mod Settled
use rag_enterprise.Prelude.{
  ℕ, ◌≡◌, refl, sym, ap, ◌∙◌, Bool, true, false, not, ◌&&◌, ◌||◌, List, [], ◌∷◌, ◌==◌, leb, ==_iff,
  arith, All, Bool-cases, inl, inr, map, is_in, any_row, all_rows, rows_where, update_rows,
  and_both, both_and, if◌then◌else◌,
}
use rag_enterprise.Knowledge.Enums.{ProcessingStatus}
use rag_enterprise.Knowledge.Models.{Database, DocumentVersion}
use rag_enterprise.Indexing.Repositories.Chunks.{mark_superseded_for_versions}
use rag_enterprise.Indexing.Repositories.Embeddings.{mark_stale_for_versions}
use rag_enterprise.Indexing.Repositories.Versions.{
  insert_by_number, order_by_number, of_document, list_for_document, set_version,
}
use rag_enterprise.Indexing.Service.{Env, is_replaceable}
use rag_enterprise.Indexing.Service.Attempts.{
  scope_of, prior_ids, as_superseded, supersede_versions, supersede_prior_versions,
}

abbrev ids_of : List DocumentVersion → List ℕ
ids_of = map (λ v. v.id)

is_in-ids_of :
    (x : ℕ) (vs : List DocumentVersion) → is_in x (ids_of vs) ≡ any_row (λ v. x == v.id) vs
unfolding is_in any_row
is_in-ids_of x [] = refl
is_in-ids_of x (v ∷ vs) = rw (is_in-ids_of x vs) refl

any_row-rows_where :
    (p q : DocumentVersion → Bool) (vs : List DocumentVersion)
    → any_row p (rows_where q vs) ≡ any_row (λ v. q v && p v) vs
unfolding any_row rows_where
any_row-rows_where p q [] = refl
any_row-rows_where p q (v ∷ vs) = ground (arith, any_row-rows_where p q vs)

any_row-insert :
    (p : DocumentVersion → Bool) (v : DocumentVersion) (vs : List DocumentVersion)
    → any_row p (insert_by_number v vs) ≡ (p v || any_row p vs)
unfolding any_row insert_by_number
any_row-insert p v [] = refl
any_row-insert p v (w ∷ ws) = ground (arith, any_row-insert p v ws)

any_row-order :
    (p : DocumentVersion → Bool) (vs : List DocumentVersion)
    → any_row p (order_by_number vs) ≡ any_row p vs
unfolding any_row order_by_number
any_row-order p [] = refl
any_row-order p (v ∷ vs) = rw (any_row-insert p v (order_by_number vs), any_row-order p vs) refl

-- A row that passes its own test is found by it, in a table with the rows `vs`.
any_row_self :
    (p : DocumentVersion → DocumentVersion → Bool) (all vs : List DocumentVersion)
    → ((q : DocumentVersion → Bool) → any_row q vs ≡ true → any_row q all ≡ true)
    → All (λ v. p v v ≡ true → any_row (p v) all ≡ true) vs
unfolding any_row
any_row_self p all [] k = tt
any_row_self p all (v ∷ vs) k =
    (λ h. k (p v) (rw h refl), any_row_self p all vs (λ q h. k q (ground arith)))

-- The loop, as one statement.
fuse :
    (now : ℕ) (ids others : List ℕ) (id : ℕ) (vs : List DocumentVersion)
    → is_in id ids ≡ true
    → update_rows
        (λ v. is_in v.id ids && is_in v.id others)
        (as_superseded now)
        (update_rows (λ v. v.id == id) (as_superseded now) vs)
      ≡ update_rows
          (λ v. is_in v.id ids && (v.id == id || is_in v.id others))
          (as_superseded now)
          vs
unfolding update_rows
fuse now ids others id [] h = refl
fuse now ids others id (v ∷ vs) h = elim (Bool-cases (v.id == id)) [
  | inl own ↦
      let prior : is_in v.id ids ≡ true = rw ((==_iff v.id id).0 own) h in
      elim (Bool-cases (is_in v.id others)) [
        | inl e ↦ rw (own, prior, e, fuse now ids others id vs h) refl
        | inr e ↦ rw (own, prior, e, fuse now ids others id vs h) refl
      ]
  | inr other ↦ rw (other, fuse now ids others id vs h) refl
]

skip_other :
    (now : ℕ) (ids others : List ℕ) (id : ℕ) (vs : List DocumentVersion)
    → is_in id ids ≡ false
    → update_rows (λ v. is_in v.id ids && is_in v.id others) (as_superseded now) vs
      ≡ update_rows
          (λ v. is_in v.id ids && (v.id == id || is_in v.id others))
          (as_superseded now)
          vs
unfolding update_rows
skip_other now ids others id [] h = refl
skip_other now ids others id (v ∷ vs) h = elim (Bool-cases (v.id == id)) [
  | inl own ↦
      let none_of : is_in v.id ids ≡ false = rw ((==_iff v.id id).0 own) h in
      rw (none_of, skip_other now ids others id vs h) refl
  | inr other ↦ rw (other, skip_other now ids others id vs h) refl
]

update_none :
    (ids : List ℕ) (f : DocumentVersion → DocumentVersion) (vs : List DocumentVersion)
    → vs ≡ update_rows (λ v. is_in v.id ids && is_in v.id []) f vs
unfolding update_rows is_in
update_none ids f [] = refl
update_none ids f (v ∷ vs) = elim (Bool-cases (is_in v.id ids)) [
  | inl e ↦ rw e (ap (◌∷◌ v) (update_none ids f vs))
  | inr e ↦ rw e (ap (◌∷◌ v) (update_none ids f vs))
]

supersede_versions-rows :
    (siblings : List DocumentVersion) (now : ℕ) (ids : List ℕ) (db : Database)
    → (supersede_versions now ids siblings db).document_versions
      ≡ update_rows
          (λ v. is_in v.id ids && is_in v.id (ids_of siblings))
          (as_superseded now)
          db.document_versions
unfolding supersede_versions set_version is_in
supersede_versions-rows [] now ids db = update_none ids (as_superseded now) db.document_versions
supersede_versions-rows (s ∷ rest) now ids db = elim (Bool-cases (is_in s.id ids)) [
  | inl prior ↦
      rw (supersede_versions, prior)
        (supersede_versions-rows rest now ids (set_version s.id (as_superseded now) db)
          ∙ fuse now ids (ids_of rest) s.id db.document_versions prior)
  | inr kept ↦
      rw (supersede_versions, kept)
        (supersede_versions-rows rest now ids db
          ∙ skip_other now ids (ids_of rest) s.id db.document_versions kept)
]

-- Another version of the document that could still be found by a search, or be indexed.
unfoldable pub is_rival : DocumentVersion → DocumentVersion → Bool
is_rival version v =
    of_document (scope_of version) version.knowledge_base_id version.document_id v
    && not (v.id == version.id)
    && is_replaceable v.processing_status

module _ (version : DocumentVersion) (now : ℕ) (P : DocumentVersion → Bool) where
  no_rivals :
      (vs : List DocumentVersion)
      → All (λ v. is_rival version v ≡ true → P v ≡ true) vs
      → all_rows (λ v. not (is_rival version v)) (update_rows P (as_superseded now) vs) ≡ true
  unfolding all_rows update_rows is_rival
  no_rivals [] k = refl
  no_rivals (v ∷ vs) k = elim (Bool-cases (P v)) [
    | inl hit ↦ rw hit (ground (arith, no_rivals vs k.1))
    | inr miss ↦ rw miss (ground (arith, k.0, no_rivals vs k.1))
  ]

mark_superseded-versions :
    (ids : List ℕ) (db : Database)
    → (mark_superseded_for_versions ids db).document_versions ≡ db.document_versions
unfolding mark_superseded_for_versions
mark_superseded-versions [] db = refl
mark_superseded-versions (i ∷ ids) db = refl

mark_stale-versions :
    (ids : List ℕ) (db : Database)
    → (mark_stale_for_versions ids db).document_versions ≡ db.document_versions
unfolding mark_stale_for_versions
mark_stale-versions [] db = refl
mark_stale-versions (i ∷ ids) db = refl

module _ (version : DocumentVersion) (db : Database) where
  abbrev mine : DocumentVersion → Bool
  mine = of_document (scope_of version) version.knowledge_base_id version.document_id

  abbrev prior : DocumentVersion → Bool
  prior v = not (v.id == version.id) && is_replaceable v.processing_status

  abbrev siblings : List DocumentVersion
  siblings = list_for_document (scope_of version) version.knowledge_base_id version.document_id db

  in_siblings :
      (x : ℕ) → is_in x (ids_of siblings) ≡ any_row (λ u. mine u && x == u.id) db.document_versions
  unfolding list_for_document
  in_siblings x =
      is_in-ids_of x siblings
      ∙ any_row-order (λ u. x == u.id) (rows_where mine db.document_versions)
      ∙ any_row-rows_where (λ u. x == u.id) mine db.document_versions

  in_prior :
      (x : ℕ)
      → is_in x (prior_ids version db)
        ≡ any_row (λ u. mine u && (prior u && x == u.id)) db.document_versions
  unfolding list_for_document prior_ids
  in_prior x =
      is_in-ids_of x (rows_where prior siblings)
      ∙ any_row-rows_where (λ u. x == u.id) prior siblings
      ∙ any_row-order (λ u. prior u && x == u.id) (rows_where mine db.document_versions)
      ∙ any_row-rows_where (λ u. prior u && x == u.id) mine db.document_versions

  rivals_found :
      All
        (λ v.
          is_rival version v ≡ true
          → (is_in v.id (prior_ids version db) && is_in v.id (ids_of siblings)) ≡ true)
        db.document_versions
  unfolding is_rival
  rivals_found =
      go db.document_versions
        (any_row_self (λ v u. mine u && (prior u && v.id == u.id)) db.document_versions
          db.document_versions (λ q h. h))
        (any_row_self (λ v u. mine u && v.id == u.id) db.document_versions db.document_versions
          (λ q h. h))
    where
      go :
          (vs : List DocumentVersion)
          → All
              (λ v.
                (mine v && (prior v && v.id == v.id)) ≡ true
                → any_row (λ u. mine u && (prior u && v.id == u.id)) db.document_versions ≡ true)
              vs
          → All
              (λ v.
                (mine v && v.id == v.id) ≡ true
                → any_row (λ u. mine u && v.id == u.id) db.document_versions ≡ true)
              vs
          → All
              (λ v.
                is_rival version v ≡ true
                → (is_in v.id (prior_ids version db) && is_in v.id (ids_of siblings)) ≡ true)
              vs
      go [] p q = tt
      go (v ∷ vs) p q = (
        λ h.
            both_and _ _ (in_prior v.id ∙ p.0 (ground arith))
              (in_siblings v.id ∙ q.0 (ground arith)),
        go vs p.1 q.1,
      )

-- After the other versions of a document have been superseded, none of them is indexed, chunked or
-- being indexed.
pub supersede_prior_versions-is_rival :
    (env : Env) (version : DocumentVersion) (db : Database)
    → all_rows
        (λ v. not (is_rival version v))
        (supersede_prior_versions env version db).document_versions
      ≡ true
unfolding supersede_prior_versions
supersede_prior_versions-is_rival env version db =
    rw
      (
        mark_stale-versions (prior_ids version db),
        mark_superseded-versions (prior_ids version db),
        supersede_versions-rows (siblings version db) env.now (prior_ids version db) db,
      )
      (no_rivals version env.now _ db.document_versions (rivals_found version db))
