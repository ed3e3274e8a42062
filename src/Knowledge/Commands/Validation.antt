-- ===== src/Knowledge/Commands/Validation.antt =====
-- knowledge/validation.py and the limits of knowledge/constants.py.
use rag_enterprise.Prelude.{
  ℕ, ◌+◌, ◌*◌, Bool, true, false, not, ◌&&◌, ◌||◌, List, [], ◌∷◌, length, ltb, leb, ◌==◌,
  if◌then◌else◌, ◌≡◌, refl,
}
use rag_enterprise.Prelude.Text.{Str, codes, str_eq, strip, split}

abbrev pub max_folder_depth : ℕ
max_folder_depth = 20

abbrev max_file_size_bytes : ℕ
max_file_size_bytes = 50 * 1024 * 1024

abbrev pub upload_session_ttl_hours : ℕ
upload_session_ttl_hours = 24

all_of {ℓ} : {A : Type ℓ} → (A → Bool) → List A → Bool
all_of p [] = true
all_of p (x ∷ xs) = p x && all_of p xs

is_lower : ℕ → Bool
is_lower c = leb b'a' c && leb c b'z'

is_upper : ℕ → Bool
is_upper c = leb b'A' c && leb c b'Z'

is_alnum : ℕ → Bool
is_alnum c = is_lower c || is_upper c || (leb b'0' c && leb c b'9')

-- `$` also matches before a newline at the end.
chomp : Str → Str
chomp [] = []
chomp (c ∷ []) = if c == 10 then [] else c ∷ []
chomp (c ∷ d ∷ s) = c ∷ chomp (d ∷ s)

subtag : Str → Bool
subtag s = leb 2 (length s) && leb (length s) 8 && all_of is_alnum s

language_parts : List Str → Bool
language_parts [] = false
language_parts (p ∷ ps) =
    leb 2 (length p) && leb (length p) 3 && all_of is_lower p && all_of subtag ps

-- ^[a-z]{2,3}(-[A-Za-z0-9]{2,8})*$, by its parts between hyphens
unfoldable pub is_valid_language_code : Str → Bool
unfolding language_parts subtag all_of is_lower is_upper is_alnum chomp split
is_valid_language_code value = language_parts (split b'-' (chomp value))

unfoldable pub is_valid_name : Str → Bool
is_valid_name value = let n = length (strip value) in ltb 0 n && leb n 200

unfoldable pub is_valid_title : Str → Bool
is_valid_title value = let n = length (strip value) in ltb 0 n && leb n 500

-- `.lower()`, for the characters that an allowed extension can come from.
lower : Str → Str
lower [] = []
lower (c ∷ s) = (if is_upper c then c + 32 else c) ∷ lower s

last_of : Str → List Str → Str
last_of d [] = d
last_of d (p ∷ ps) = last_of p ps

-- The text behind the last dot with the dot, or the empty text where there is none.
extension : Str → Str
extension file_name = ext (split b'.' file_name)
  where
    ext : List Str → Str
    ext [] = []
    ext (p ∷ []) = []
    ext (p ∷ q ∷ ps) = b'.' ∷ lower (last_of q ps)

is_allowed_extension : Str → Bool
is_allowed_extension e =
    str_eq e (codes ".pdf")
    || str_eq e (codes ".docx")
    || str_eq e (codes ".txt")
    || str_eq e (codes ".md")
    || str_eq e (codes ".html")

unfoldable pub is_allowed_file : Str → ℕ → Bool
unfolding is_allowed_extension extension lower last_of is_upper split str_eq
is_allowed_file file_name size =
    if leb size 0 || ltb max_file_size_bytes size
    then false
    else is_allowed_extension (extension file_name)

unfoldable pub is_valid_tags : List Str → Bool
unfolding all_of
is_valid_tags tags = leb (length tags) 50 && all_of (λ tag. not (str_eq (strip tag) [])) tags

-- Metadata is kept as the text that `json.dumps` prints.
unfoldable pub metadata_size_ok : Str → Bool
metadata_size_ok metadata = leb (length metadata) (16 * 1024)

is_valid_language_code_test : is_valid_language_code (codes "fa-IR") ≡ true
unfolding is_valid_language_code
is_valid_language_code_test = refl

is_allowed_file_test : is_allowed_file (codes "report.v2.PDF") 10 ≡ true
unfolding is_allowed_file
is_allowed_file_test = refl
