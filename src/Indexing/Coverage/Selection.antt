-- ===== src/Indexing/Coverage/Selection.antt =====
-- indexing/service.py: the loop that sorts the chunks of a version, and `list_for_version`.
use rag_enterprise.Prelude.{
  ℕ, suc, ◌+◌, ◌≡◌, refl, ap, ◌∙◌, Bool, true, false, not, ◌&&◌, List, [], ◌∷◌, ◌==◌, leb, length,
  arith, All, and_both, Bool-cases, inl, inr, is_none, rows_where,
}
use rag_enterprise.Knowledge.Models.{Database}
use rag_enterprise.Indexing.Enums.{is_deleted_chunk, is_indexed_chunk}
use rag_enterprise.Indexing.Models.{Chunk}
use rag_enterprise.Indexing.Session.{Session, ok, query, execute, pure, ◌>>=◌}
use rag_enterprise.Indexing.Repositories.Chunks.{
  insert_by_sequence, order_by_sequence, list_for_version, set_indexed,
}
use rag_enterprise.Indexing.Repositories.Embeddings.{find_active_match}
use rag_enterprise.Indexing.Service.{Env, active_match}
use rag_enterprise.Indexing.Service.Attempts.{mark_skipped, select_pending, unmatched}

-- The chunks that are left to embed.
abbrev pub pending_of : Env → (force : Bool) → List Chunk → Database → List Chunk
pending_of env true cs db = cs
pending_of env false cs db = unmatched env cs db

-- The loop goes through, and touches no embedding: `s'` is the session after it.
pub record Selects (env : Env) (force : Bool) (cs : List Chunk) (s : Session) : Type 0 where
  pub skipped : ℕ
  pub complete : length (pending_of env force cs s.working) + skipped ≡ length cs
  pub result : (select_pending env force cs s).0 ≡ ok (pending_of env force cs s.working, skipped)
  pub embeddings : (select_pending env force cs s).1.working.embeddings ≡ s.working.embeddings

mark_skipped_ok : (c : Chunk) (s : Session) → (mark_skipped c s).0 ≡ ok tt
unfolding mark_skipped pure execute
mark_skipped_ok c s = elim (Bool-cases (is_indexed_chunk c.status)) [
  | inl e ↦ rw e refl
  | inr e ↦ rw e refl
]

mark_skipped-embeddings :
    (c : Chunk) (s : Session) → (mark_skipped c s).1.working.embeddings ≡ s.working.embeddings
unfolding mark_skipped pure execute set_indexed
mark_skipped-embeddings c s = elim (Bool-cases (is_indexed_chunk c.status)) [
  | inl e ↦ rw e refl
  | inr e ↦ rw e refl
]

-- The pending chunks depend on the embeddings alone.
unmatched-embeddings :
    (env : Env) (cs : List Chunk) (db db' : Database)
    → db'.embeddings ≡ db.embeddings
    → unmatched env cs db' ≡ unmatched env cs db
unfolding unmatched active_match find_active_match rows_where
unmatched-embeddings env [] db db' e = refl
unmatched-embeddings env (c ∷ cs) db db' e = rw (e, unmatched-embeddings env cs db db' e) refl

pub select_pending-Selects :
    (env : Env) (force : Bool) (cs : List Chunk) (s : Session) → Selects env force cs s
unfolding select_pending pure query ◌>>=◌ unmatched rows_where
select_pending-Selects env true [] s = record {
  skipped = 0;
  complete = refl;
  result = refl;
  embeddings = refl;
}
select_pending-Selects env false [] s = record {
  skipped = 0;
  complete = refl;
  result = refl;
  embeddings = refl;
}
select_pending-Selects env true (c ∷ cs) s =
    let rest = select_pending-Selects env true cs s in
    record {
      skipped = rest.skipped;
      complete = omega (arith, rest.complete);
      result = rw rest.result refl;
      embeddings = rw rest.result rest.embeddings;
    }
select_pending-Selects env false (c ∷ cs) s =
    elim (Bool-cases (is_none (active_match env c s.working))) [
      | inl missing ↦
          let rest = select_pending-Selects env false cs s in
          record {
            skipped = rest.skipped;
            complete = rw missing (omega (arith, rest.complete));
            result = rw (missing, rest.result) refl;
            embeddings = rw (missing, rest.result) rest.embeddings;
          }
      | inr present ↦
          let marked = (mark_skipped c s).1 in
          let rest = select_pending-Selects env false cs marked in
          let same = mark_skipped-embeddings c s in
          let left = unmatched-embeddings env cs s.working marked.working same in
          record {
            skipped = suc rest.skipped;
            complete = rw present (omega (arith, rest.complete, ap length left));
            result = rw (present, mark_skipped_ok c s, rest.result, left) refl;
            embeddings = rw (present, mark_skipped_ok c s, rest.result) (rest.embeddings ∙ same);
          }
    ]

module _ (K : Chunk → Type 0) where
  All-rows_where : (p : Chunk → Bool) (cs : List Chunk) → All K cs → All K (rows_where p cs)
  unfolding rows_where
  All-rows_where p [] k = tt
  All-rows_where p (c ∷ cs) k = elim (Bool-cases (p c)) [
    | inl e ↦ rw (rows_where, e) (k.0, All-rows_where p cs k.1)
    | inr e ↦ rw (rows_where, e) (All-rows_where p cs k.1)
  ]

  All-insert_by_sequence :
      (c : Chunk) (cs : List Chunk) → K c → All K cs → All K (insert_by_sequence c cs)
  unfolding insert_by_sequence
  All-insert_by_sequence c [] h k = (h, tt)
  All-insert_by_sequence c (d ∷ ds) h k =
      elim (Bool-cases (leb c.sequence_number d.sequence_number)) [
        | inl e ↦ rw (insert_by_sequence, e) (h, k)
        | inr e ↦ rw (insert_by_sequence, e) (k.0, All-insert_by_sequence c ds h k.1)
      ]

  All-order_by_sequence : (cs : List Chunk) → All K cs → All K (order_by_sequence cs)
  unfolding order_by_sequence
  All-order_by_sequence [] k = tt
  All-order_by_sequence (c ∷ cs) k =
      All-insert_by_sequence c (order_by_sequence cs) k.0 (All-order_by_sequence cs k.1)

  -- The chunks of a version are rows of the table.
  pub All-list_for_version :
      (version : ℕ) (db : Database) → All K db.chunks → All K (list_for_version version db)
  unfolding list_for_version
  All-list_for_version version db k = All-order_by_sequence _ (All-rows_where _ db.chunks k)

  pub All-pending_of :
      (env : Env) (force : Bool) (cs : List Chunk) (db : Database)
      → All K cs
      → All K (pending_of env force cs db)
  unfolding unmatched
  All-pending_of env true cs db k = k
  All-pending_of env false cs db k = All-rows_where _ cs k

  -- The chunks of a version have its identifier.
  pub list_for_version-own :
      (version : ℕ) (db : Database)
      → ((c : Chunk) → (c.document_version_id == version) ≡ true → K c)
      → All K (list_for_version version db)
  unfolding list_for_version rows_where
  list_for_version-own version db f = All-order_by_sequence _ (go db.chunks)
    where
      go :
          (cs : List Chunk)
          → All K (
              rows_where
                (λ c. c.document_version_id == version && not (is_deleted_chunk c.status))
                cs)
      go [] = tt
      go (c ∷ cs) =
          elim (Bool-cases (c.document_version_id == version && not (is_deleted_chunk c.status))) [
            | inl e ↦ rw (rows_where, e) (f c (and_both _ _ e).0, go cs)
            | inr e ↦ rw (rows_where, e) (go cs)
          ]

-- A chunk is pending, or has an active embedding.
pub All-selected :
    (Q K : Chunk → Type 0) (env : Env) (force : Bool) (cs : List Chunk) (db : Database)
    → ((c : Chunk) → Q c → is_none (active_match env c db) ≡ false → K c)
    → All Q cs
    → All K (pending_of env force cs db)
    → All K cs
unfolding unmatched rows_where
All-selected Q K env true cs db f q k = k
All-selected Q K env false [] db f q k = tt
All-selected Q K env false (c ∷ cs) db f q k = elim (Bool-cases (is_none (active_match env c db))) [
  | inl missing ↦
      let k' : K c × All K (unmatched env cs db) = rw missing at k in
      (k'.0, All-selected Q K env false cs db f q.1 k'.1)
  | inr present ↦
      let k' : All K (unmatched env cs db) = rw present at k in
      (f c q.0 present, All-selected Q K env false cs db f q.1 k')
]
