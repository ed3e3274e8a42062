-- ===== src/Knowledge/Subtrees.antt =====
-- repositories/folder.py: which folders the deletion of a subtree removes.
use rag_enterprise.Prelude.{
  ℕ, Bool, true, false, not, ◌&&◌, ◌||◌, none, some, List, [], ◌∷◌, map, ◌≡◌, refl, arith, ◌==◌,
  ==_iff, ap, scalar, rows_where, any_row, update_rows, delete_rows, is_in, Bool-cases, inl, inr,
}
use rag_enterprise.Prelude.Text.{Str}
use rag_enterprise.Knowledge.Models.{Folder, Database}
use rag_enterprise.Knowledge.Repositories.Folders.{
  subtree_of, list_subtree_ids, hard_delete_subtree,
}

-- A row of the knowledge base whose path is like `prefix`, with the identifier.
abbrev alike : (Str → Str → Bool) → ℕ → Str → ℕ → Folder → Bool
alike like kb prefix i f = f.id == i && (f.knowledge_base_id == kb && like f.path prefix)

-- A row has the identifier.
abbrev pub has_folder : ℕ → List Folder → Bool
has_folder i fs = any_row (λ f. f.id == i) fs

is_in-rows_where :
    (like : Str → Str → Bool) (kb i : ℕ) (prefix : Str) (fs : List Folder)
    → is_in i
        (map (λ f. f.id) (rows_where (λ f. f.knowledge_base_id == kb && like f.path prefix) fs))
      ≡ any_row (alike like kb prefix i) fs
unfolding rows_where any_row is_in
is_in-rows_where like kb i prefix [] = refl
is_in-rows_where like kb i prefix (f ∷ fs) = ground (arith, is_in-rows_where like kb i prefix fs)

is_in-subtree_of :
    (like : Str → Str → Bool) (kb i : ℕ) (root : Folder) (fs : List Folder)
    → is_in i (subtree_of like kb fs (some root)) ≡ any_row (alike like kb root.path i) fs
unfolding subtree_of
is_in-subtree_of like kb i root fs = is_in-rows_where like kb i root.path fs

-- A deletion leaves no row that its test accepts.
has_folder-delete_rows :
    (i : ℕ) (ids : List ℕ) (fs : List Folder)
    → has_folder i (
        delete_rows
          (λ f. is_in f.id ids)
          (update_rows (λ f. is_in f.id ids) (λ f. record f { parent_folder_id = none }) fs))
      ≡ (not (is_in i ids) && has_folder i fs)
unfolding any_row delete_rows rows_where update_rows
has_folder-delete_rows i ids [] = ground arith
has_folder-delete_rows i ids (f ∷ fs) =
    let rest = has_folder-delete_rows i ids fs in
    elim (Bool-cases (is_in f.id ids)) [
      | inl gone ↦ rw gone (rw gone (gone_lem gone rest))
      | inr kept ↦ rw kept (rw kept (kept_lem kept rest))
    ]
  where
    same : (f.id == i) ≡ true → is_in f.id ids ≡ is_in i ids
    same e = ap (λ k. is_in k ids) ((==_iff f.id i).0 e)

    gone_lem :
        {h : Bool}
        → is_in f.id ids ≡ true
        → h ≡ (not (is_in i ids) && has_folder i fs)
        → h ≡ (not (is_in i ids) && (f.id == i || has_folder i fs))
    gone_lem gone rest = ground (arith, same)

    kept_lem :
        {h : Bool}
        → is_in f.id ids ≡ false
        → h ≡ (not (is_in i ids) && has_folder i fs)
        → (f.id == i || h) ≡ (not (is_in i ids) && (f.id == i || has_folder i fs))
    kept_lem kept rest = ground (arith, same)

-- After `hard_delete_subtree` no row has one of the identifiers, and the others keep theirs.
has_folder-hard_delete_subtree :
    (i : ℕ) (ids : List ℕ) (db : Database)
    → has_folder i (hard_delete_subtree ids db).folders
      ≡ (not (is_in i ids) && has_folder i db.folders)
unfolding hard_delete_subtree is_in
has_folder-hard_delete_subtree i [] db = refl
has_folder-hard_delete_subtree i (k ∷ ids) db = has_folder-delete_rows i (k ∷ ids) db.folders

-- After the subtree of a folder has been deleted, a row with an identifier is left if and only if
-- one was there and no row of the knowledge base with that identifier has a path that is like
-- the path of the folder: the test reads the path as text, and not the parents.
pub has_folder-list_subtree_ids :
    (like : Str → Str → Bool) (kb id i : ℕ) (root : Folder) (db : Database)
    → scalar (λ f. f.id == id) db.folders ≡ some root
    → has_folder i (hard_delete_subtree (list_subtree_ids like kb id db) db).folders
      ≡ (not (any_row (alike like kb root.path i) db.folders) && has_folder i db.folders)
unfolding list_subtree_ids
has_folder-list_subtree_ids like kb id i root db e = rw e (
    rw (is_in-subtree_of like kb i root db.folders) at
      (has_folder-hard_delete_subtree i (subtree_of like kb db.folders (some root)) db))
