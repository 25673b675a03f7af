-- ===== src/Store/Sql/Patterns.antt =====
-- internal/store/postgres.go: patternToSQL. A pattern of a search is read with `*` for any text and
-- `?` for any character; LIKE reads `%` and `_` so, and `\` as an escape.
use go_rdap_server.Base.{
  ◌≡◌, refl, ℕ, Bool, true, not, ◌&&◌, List, [], ◌∷◌, all, arith, if◌then◌else◌, ◌==◌, GoString,
  replace_all,
}
use go_rdap_server.Store.Sql.{pattern_to_sql}

pub data Token : Type 0 where
  any_text : Token
  any_character : Token
  this : ℕ → Token

-- The meaning of a character: two of them are wildcards.
abbrev pub token : ℕ → ℕ → ℕ → Token
token star mark c = if c == star then any_text else if c == mark then any_character else this c

-- What a search is asked for.
unfoldable pub glob_tokens : GoString → List Token
glob_tokens [] = []
glob_tokens (c ∷ s) = token b'*' b'?' c ∷ glob_tokens s

-- What LIKE matches, for a pattern without a backslash.
unfoldable pub like_tokens : GoString → List Token
like_tokens [] = []
like_tokens (c ∷ s) = token b'%' b'_' c ∷ like_tokens s

-- A pattern without the characters that LIKE gives a meaning.
abbrev pub is_plain : GoString → Bool
is_plain = all (λ c. not (c == b'%') && not (c == b'_') && not (c == b'\\'))

converted : ℕ → ℕ
converted c = if c == b'*' then b'%' else if c == b'?' then b'_' else c

pattern_to_sql-cons :
    (c : ℕ) (s : GoString) → pattern_to_sql (c ∷ s) ≡ converted c ∷ pattern_to_sql s
unfolding pattern_to_sql replace_all converted
pattern_to_sql-cons c s = ground arith

-- A pattern without `%`, `_` and `\` asks LIKE for what it means.
pub like_tokens-pattern_to_sql :
    (p : GoString) → is_plain p ≡ true → like_tokens (pattern_to_sql p) ≡ glob_tokens p
unfolding like_tokens glob_tokens converted pattern_to_sql replace_all
like_tokens-pattern_to_sql [] plain = refl
like_tokens-pattern_to_sql (c ∷ s) plain =
    rw (pattern_to_sql-cons c s) (ground (arith, like_tokens-pattern_to_sql s))
