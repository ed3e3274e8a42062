-- ===== src/Prelude/Text.antt =====
-- Python strings that the program takes apart, as lists of code points, and the `str` methods used.
use Prim.Native.Nat.{ℕ}
use Prim.Native.Char.{code}
use Prim.Native.String.{String}
use mathlib.Core.Path.{◌≡◌, refl, sym}
use mathlib.Core.Bool.{Bool, true, false, ◌&&◌, ◌||◌}
use mathlib.Core.List.{List, [], ◌∷◌, ◌++◌, reverse, append-nil}
use native.Mathlib.Omega.{arith}
use rag_enterprise.Prelude.Tests.{leb, ◌==◌, if◌then◌else◌}
use rag_enterprise.Prelude.Lists.{length, drop}

abbrev pub Str : Type 0
Str = List ℕ

abbrev pub codes : String → Str
codes String.[] = []
codes (String.◌∷◌ c s) = code c ∷ codes s

unfoldable pub str_eq : Str → Str → Bool
str_eq [] [] = true
str_eq (a ∷ s) (b ∷ t) = a == b && str_eq s t
str_eq _ _ = false

-- `s.startswith(p)`
unfoldable pub starts_with : Str → Str → Bool
starts_with s [] = true
starts_with [] (b ∷ p) = false
starts_with (a ∷ s) (b ∷ p) = a == b && starts_with s p

abbrev within : ℕ → ℕ → ℕ → Bool
within lo hi c = leb lo c && leb c hi

-- `c.isspace()`
unfoldable pub is_space : ℕ → Bool
is_space c =
    within 9 13 c
    || within 28 32 c
    || c == 133
    || c == 160
    || c == 5760
    || within 8192 8202 c
    || within 8232 8233 c
    || c == 8239
    || c == 8287
    || c == 12288

unfoldable pub lstrip : Str → Str
lstrip [] = []
lstrip (c ∷ s) = if is_space c then lstrip s else c ∷ s

-- `s.strip()`
unfoldable pub strip : Str → Str
unfolding lstrip is_space
strip s = reverse (lstrip (reverse (lstrip s)))

-- The first part of `s.split(sep)` and the other parts.
split_parts : ℕ → Str → Str × List Str
split_parts sep [] = ([], [])
split_parts sep (c ∷ s) =
    let (p, ps) = split_parts sep s in if c == sep then ([], p ∷ ps) else (c ∷ p, ps)

-- `s.split(sep)` for a separator of one character
unfoldable pub split : ℕ → Str → List Str
unfolding split_parts
split sep s = let (p, ps) = split_parts sep s in p ∷ ps

-- `s.replace(old, new, 1)`
unfoldable pub replace_first : Str → Str → Str → Str
unfolding starts_with
replace_first old new [] = if starts_with [] old then new else []
replace_first old new (c ∷ s) =
    let rest = replace_first old new s in
    if starts_with (c ∷ s) old then new ++ drop (length old) (c ∷ s) else c ∷ rest

pub str_eq_refl : (s : Str) → str_eq s s ≡ true
unfolding str_eq
str_eq_refl [] = refl
str_eq_refl (a ∷ s) = ground (arith, str_eq_refl s)

pub eq_of_str_eq : (s t : Str) → str_eq s t ≡ true → s ≡ t
unfolding str_eq
eq_of_str_eq [] [] h = refl
eq_of_str_eq [] (b ∷ t) h = ground arith
eq_of_str_eq (a ∷ s) [] h = ground arith
eq_of_str_eq (a ∷ s) (b ∷ t) h = ground (arith, eq_of_str_eq s t)

pub starts_with-append : (p s : Str) → starts_with (p ++ s) p ≡ true
unfolding starts_with
starts_with-append [] s = refl
starts_with-append (a ∷ p) s = ground (arith, starts_with-append p s)

drop-append : (p s : Str) → drop (length p) (p ++ s) ≡ s
drop-append [] s = refl
drop-append (a ∷ p) s = drop-append p s

-- Replacing a prefix.
pub replace_first-append : (old new s : Str) → replace_first old new (old ++ s) ≡ new ++ s
unfolding replace_first
replace_first-append [] new [] = sym (append-nil new)
replace_first-append [] new (c ∷ s) = refl
replace_first-append (a ∷ old) new s =
    ground (arith, starts_with-append (a ∷ old) s, drop-append old s)

strip_test : strip (codes "  a b ") ≡ codes "a b"
unfolding strip
strip_test = refl

split_test : split b'/' (codes "/a/b") ≡ [] ∷ codes "a" ∷ codes "b" ∷ []
unfolding split
split_test = refl
