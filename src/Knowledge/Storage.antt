-- ===== src/Knowledge/Storage.antt =====
-- infrastructure/storage.py: the keys of stored objects. A key is kept as the parts that the program
-- prints between slashes, so two keys are the same object exactly if the parts agree.
use rag_enterprise.Prelude.{ℕ, Bool, false, ◌&&◌, List, [], ◌∷◌, ◌==◌, if◌then◌else◌}
use rag_enterprise.Prelude.Text.{Str, codes, str_eq, split}
use rag_enterprise.Knowledge.Models.{StorageKey, version_key, staging_key, extended_key}

unfoldable pub same_key : StorageKey → StorageKey → Bool
unfolding str_eq
same_key (version_key o w d v n) (version_key o' w' d' v' n') =
    o == o' && w == w' && d == d' && v == v' && str_eq n n'
same_key (staging_key o w u) (staging_key o' w' u') = o == o' && w == w' && u == u'
same_key (extended_key k s) (extended_key k' s') = same_key k k' && str_eq s s'
same_key _ _ = false

-- The last part of a path that is neither empty nor a dot.
last_part : Str → List Str → Str
last_part found [] = found
last_part found (p ∷ ps) =
    last_part (if str_eq p [] then found else if str_eq p (codes ".") then found else p) ps

-- `Path(file_name).name`
path_name : Str → Str
path_name file_name = last_part [] (split b'/' file_name)

-- `Path(file_name).name or "upload.bin"`
safe_name : Str → Str
safe_name file_name =
    let name = path_name file_name in if str_eq name [] then codes "upload.bin" else name

unfoldable pub storage_key_for_version : (o w kb document_id version_id : ℕ) → Str → StorageKey
unfolding safe_name path_name last_part split str_eq
storage_key_for_version o w kb document_id version_id file_name =
    version_key o w document_id version_id (safe_name file_name)

unfoldable pub staging_storage_key : (upload_id o w : ℕ) → StorageKey
staging_storage_key upload_id o w = staging_key o w upload_id
