-- ===== src/Chunking/Breaks.antt =====
-- splitter.py: where a span may be broken. A text is a list of code points.
use rag_enterprise.Prelude.{
  ℕ, zero, suc, ◌+◌, ◌≤◌, ◌<◌, ◌≡◌, Bool, true, ◌&&◌, Option, none, some, List, [], ◌∷◌, arith, ltb,
  leb, ◌==◌, if◌then◌else◌,
}
use rag_enterprise.Prelude.Text.{Str}

-- `text[start:end]`
unfoldable pub slice : ℕ → ℕ → Str → Str
slice lo hi [] = []
slice lo zero (c ∷ s) = []
slice zero (suc hi) (c ∷ s) = c ∷ slice zero hi s
slice (suc lo) (suc hi) (c ∷ s) = slice lo hi s

-- `region.rfind(c, lo, hi)`: the last index in `[lo, hi)` that holds `c`. `i` is the index of the head.
unfoldable pub rfind_from : ℕ → (c lo hi : ℕ) → Str → Option ℕ → Option ℕ
rfind_from i c lo hi [] found = found
rfind_from i c lo hi (x ∷ s) found =
    rfind_from (i + 1) c lo hi s (if x == c && leb lo i && ltb i hi then some i else found)

unfoldable pub rfind : (c : ℕ) → Str → (lo hi : ℕ) → Option ℕ
unfolding rfind_from
rfind c s lo hi = rfind_from 0 c lo hi s none

-- `max([pos for pos in breaks if test(pos)])`, if there is one.
unfoldable pub max_where : (ℕ → Bool) → List ℕ → Option ℕ
max_where test [] = none
max_where test (b ∷ bs) =
    let rest = max_where test bs in
    if test b
    then elim rest [ none ↦ some b | some m ↦ (if ltb m b then some b else some m) ]
    else rest

unfoldable pub choose_break : List ℕ → (floor hard : ℕ) → Option ℕ
choose_break breaks floor hard = elim (max_where (λ pos. leb floor pos && leb pos hard) breaks) [
  | none ↦ max_where (λ pos. ltb 0 pos && leb pos hard) breaks
  | some m ↦ some m
]

max_where-test :
    (test : ℕ → Bool) (bs : List ℕ) (m : ℕ) → max_where test bs ≡ some m → test m ≡ true
unfolding max_where
max_where-test test [] m e = ground arith
max_where-test test (b ∷ bs) m e = ground (arith, max_where-test test bs m)

pub choose_break-le :
    (breaks : List ℕ) (floor hard m : ℕ) → choose_break breaks floor hard ≡ some m → m ≤ hard
unfolding choose_break
choose_break-le breaks floor hard m e = ground (
  arith,
  max_where-test (λ pos. leb floor pos && leb pos hard) breaks m,
  max_where-test (λ pos. ltb 0 pos && leb pos hard) breaks m,
)

rfind_from-lt :
    (i c lo hi : ℕ) (s : Str) (found : Option ℕ) (k : ℕ)
    → ((j : ℕ) → found ≡ some j → j < hi)
    → rfind_from i c lo hi s found ≡ some k
    → k < hi
unfolding rfind_from
rfind_from-lt i c lo hi [] found k h e = h k e
rfind_from-lt i c lo hi (x ∷ s) found k h e =
    rfind_from-lt (i + 1) c lo hi s _ k (λ j p. ground (arith, h j)) e

pub rfind-lt : (c : ℕ) (s : Str) (lo hi k : ℕ) → rfind c s lo hi ≡ some k → k < hi
unfolding rfind
rfind-lt c s lo hi k e = rfind_from-lt 0 c lo hi s none k (λ j p. ground arith) e
