-- ===== src/Base/Text.antt =====
-- Go strings as lists of bytes, and what the source uses of package strings. Functions that Go
-- defines by tables of Unicode are written out for ASCII text; for other text they are fields of
-- `Unicode`, a parameter of the model.
pub mod Laws
use Prim.Native.Nat.{ℕ, zero, suc, ◌+◌, ◌-◌}
use Prim.Native.Char.{code}
use Prim.Native.String.{String}
use mathlib.Core.Bool.{Bool, true, false, not, ◌&&◌, ◌||◌}
use mathlib.Core.List.{List, [], ◌∷◌, ◌++◌, map, reverse}
use mathlib.Core.Option.{Option, none, some}
use go_rdap_server.Base.Tests.{ltb, leb, ◌==◌, if◌then◌else◌}
use go_rdap_server.Base.Lists.{length, all, is_empty}

abbrev pub GoString : Type 0
GoString = List ℕ

-- The bytes of a literal, which is ASCII in all of the source.
abbrev pub str : String → GoString
str String.[] = []
str (String.◌∷◌ c s) = code c ∷ str s

-- s == t
unfoldable pub str_eq : GoString → GoString → Bool
str_eq [] [] = true
str_eq [] (b ∷ t) = false
str_eq (a ∷ s) [] = false
str_eq (a ∷ s) (b ∷ t) = a == b && str_eq s t

unfoldable pub is_ascii_text : GoString → Bool
is_ascii_text = all (λ c. ltb c 128)

pub record Unicode : Type 0 where
  pub lower : GoString → GoString
  pub trim_space : GoString → GoString
  pub equal_fold : GoString → GoString → Bool
  pub fields : GoString → List GoString

unfoldable pub lower_byte : ℕ → ℕ
lower_byte c = if leb b'A' c && leb c b'Z' then c + 32 else c

-- strings.ToLower
unfoldable pub to_lower : Unicode → GoString → GoString
to_lower u s = if is_ascii_text s then map lower_byte s else u.lower s

-- '\t', '\n', '\v', '\f', '\r' and ' '
unfoldable pub is_space : ℕ → Bool
is_space c = (leb 9 c && leb c 13) || c == 32

unfoldable pub trim_left : (ℕ → Bool) → GoString → GoString
trim_left p [] = []
trim_left p (c ∷ s) = let rest = trim_left p s in if p c then rest else c ∷ s

unfoldable pub trim_right : (ℕ → Bool) → GoString → GoString
trim_right p [] = []
trim_right p (c ∷ s) = let rest = trim_right p s in if is_empty rest && p c then [] else c ∷ rest

-- strings.TrimSpace
unfoldable pub trim_space : Unicode → GoString → GoString
trim_space u s =
    if is_ascii_text s then trim_right is_space (trim_left is_space s) else u.trim_space s

-- strings.EqualFold
unfoldable pub equal_fold : Unicode → GoString → GoString → Bool
equal_fold u s t =
    if is_ascii_text s && is_ascii_text t
    then str_eq (map lower_byte s) (map lower_byte t)
    else u.equal_fold s t

-- strings.TrimSuffix(s, ".") and such, for a suffix of one byte
unfoldable pub trim_suffix : ℕ → GoString → GoString
trim_suffix b [] = []
trim_suffix b (c ∷ []) = if c == b then [] else c ∷ []
trim_suffix b (c ∷ d ∷ s) = c ∷ trim_suffix b (d ∷ s)

-- strings.HasPrefix
unfoldable pub has_prefix : GoString → GoString → Bool
has_prefix [] s = true
has_prefix (a ∷ p) [] = false
has_prefix (a ∷ p) (b ∷ s) = a == b && has_prefix p s

unfoldable pub drop : ℕ → GoString → GoString
drop zero s = s
drop (suc n) [] = []
drop (suc n) (c ∷ s) = drop n s

-- strings.TrimPrefix(s, prefix)
unfoldable pub trim_prefix : GoString → GoString → GoString
trim_prefix p s = if has_prefix p s then drop (length p) s else s

-- strings.Contains(s, "c") for one byte
unfoldable pub contains_byte : ℕ → GoString → Bool
contains_byte b [] = false
contains_byte b (c ∷ s) = c == b || contains_byte b s

abbrev pub cons_first : ℕ → List GoString → List GoString
cons_first c [] = (c ∷ []) ∷ []
cons_first c (p ∷ ps) = (c ∷ p) ∷ ps

-- strings.Split(s, "c") for a separator of one byte
unfoldable pub split : ℕ → GoString → List GoString
split b [] = [] ∷ []
split b (c ∷ s) = let parts = split b s in if c == b then [] ∷ parts else cons_first c parts

-- strings.ReplaceAll(s, "c", new) for one byte
unfoldable pub replace_all : ℕ → GoString → GoString → GoString
replace_all b new [] = []
replace_all b new (c ∷ s) =
    let rest = replace_all b new s in if c == b then new ++ rest else c ∷ rest

-- strings.Join(parts, sep)
unfoldable pub join : GoString → List GoString → GoString
join sep [] = []
join sep (p ∷ []) = p
join sep (p ∷ q ∷ ps) = p ++ sep ++ join sep (q ∷ ps)
