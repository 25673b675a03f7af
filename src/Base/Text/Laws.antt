-- ===== src/Base/Text/Laws.antt =====
-- Laws of the text functions.
use mathlib.Core.Path.{◌≡◌, refl}
use mathlib.Core.Logic.{◌↔◌}
use mathlib.Core.Bool.{true}
use mathlib.Core.List.{[], ◌∷◌, ◌++◌}
use native.Mathlib.Omega.{arith}
use go_rdap_server.Base.Lists.{length}
use go_rdap_server.Base.Text.{GoString, str_eq, has_prefix, drop, trim_prefix}

str_eq_sound : (s t : GoString) → str_eq s t ≡ true → s ≡ t
unfolding str_eq
str_eq_sound [] [] h = refl
str_eq_sound [] (b ∷ t) h = cc
str_eq_sound (a ∷ s) [] h = cc
str_eq_sound (a ∷ s) (b ∷ t) h = ground (arith, str_eq_sound s t)

pub str_eq_refl : (s : GoString) → str_eq s s ≡ true
unfolding str_eq
str_eq_refl [] = refl
str_eq_refl (a ∷ s) = ground (arith, str_eq_refl s)

-- The test on strings decides their equality.
pub str_eq_iff : (s t : GoString) → (str_eq s t ≡ true) ↔ (s ≡ t)
str_eq_iff s t = (str_eq_sound s t, λ e. rw e (str_eq_refl t))

-- A text behind a prefix has the prefix.
pub has_prefix-append : (p t : GoString) → has_prefix p (p ++ t) ≡ true
unfolding has_prefix
has_prefix-append [] t = refl
has_prefix-append (a ∷ p) t = ground (arith, has_prefix-append p t)

-- What is behind a text when it is dropped.
pub drop-append : (p t : GoString) → drop (length p) (p ++ t) ≡ t
unfolding drop
drop-append [] t = refl
drop-append (a ∷ p) t = drop-append p t

-- A text that begins with the prefix is the prefix and what is left when it is dropped.
pub append-drop : (p s : GoString) → has_prefix p s ≡ true → s ≡ p ++ drop (length p) s
unfolding has_prefix drop
append-drop [] s h = refl
append-drop (a ∷ p) [] h = cc
append-drop (a ∷ p) (b ∷ s) h = ground (arith, append-drop p s)

-- Trimming the prefix undoes writing it.
pub trim_prefix-append : (p t : GoString) → trim_prefix p (p ++ t) ≡ t
unfolding trim_prefix
trim_prefix-append p t = rw has_prefix-append (drop-append p t)
