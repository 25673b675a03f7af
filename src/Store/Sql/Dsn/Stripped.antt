-- ===== src/Store/Sql/Dsn/Stripped.antt =====
-- internal/store/mysql.go: what normalizeMySQLDSN hands to the URL parser.
use mathlib.Core.List.{append_assoc}
use go_rdap_server.Base.{
  ◌≡◌, refl, sym, ap, ◌∙◌, zero, ℕ, suc, ◌+◌, false, some, [], ◌∷◌, ◌++◌, length, arith, GoString,
  str, contains_byte, has_prefix, drop, length-append,
}
use go_rdap_server.Base.Text.Laws.{has_prefix-append, drop-append}
use go_rdap_server.Store.Sql.Dsn.{shifted, index, take, close, strip_tcp}

-- The first place of `c ∷ sub` behind a text without the byte c.
index-append :
    (c : ℕ) (sub s t : GoString)
    → contains_byte c s ≡ false
    → index (c ∷ sub) (s ++ ((c ∷ sub) ++ t)) ≡ some (length s)
unfolding index contains_byte has_prefix
index-append c sub [] t absent = rw (has_prefix-append (c ∷ sub) t, index) refl
index-append c sub (d ∷ s) t absent =
    ground
      (arith, index-append c sub s t, ap shifted (index-append c sub s t (ground (arith, absent))))

take-append : (s t : GoString) → take (length s) (s ++ t) ≡ s
unfolding take
take-append [] t = refl
take-append (c ∷ s) t = ap (λ x. c ∷ x) (take-append s t)

length-snoc : (s : GoString) (c : ℕ) → length (s ++ c ∷ []) ≡ suc (length s)
length-snoc s c = omega (arith, length-append s (c ∷ []))

take-suc-append :
    (s : GoString) (c : ℕ) (t : GoString) → take (suc (length s)) (s ++ c ∷ t) ≡ s ++ c ∷ []
unfolding take
take-suc-append [] c t = refl
take-suc-append (d ∷ s) c t = ap (λ x. d ∷ x) (take-suc-append s c t)

drop-nil : (n : ℕ) → drop n [] ≡ []
unfolding drop
drop-nil zero = refl
drop-nil (suc n) = refl

drop-add : (n m : ℕ) (s : GoString) → drop (m + n) s ≡ drop n (drop m s)
unfolding drop
drop-add n zero s = ap (λ k. drop k s) (omega arith)
drop-add n (suc m) [] =
    ap (λ k. drop k []) {x = suc m + n} {y = suc (m + n)} (omega arith) ∙ sym (drop-nil n)
drop-add n (suc m) (c ∷ s) =
    ap (λ k. drop k (c ∷ s)) {x = suc m + n} {y = suc (m + n)} (omega arith) ∙ drop-add n m s

strip_tcp-at :
    (pre : GoString) (i : ℕ)
    → index (str "@tcp(") pre ≡ some i
    → strip_tcp pre ≡ close pre (take (suc i) pre) (drop (i + 5) pre)
unfolding strip_tcp
strip_tcp-at pre i found = rw (found, strip_tcp) refl

close-at :
    (pre kept rest : GoString) (i : ℕ)
    → index (str ")") rest ≡ some i
    → close pre kept rest ≡ kept ++ take i rest ++ drop (suc i) rest
close-at pre kept rest i found = rw (found, close) refl

-- In a text without `@` before `@tcp(` and an address without `)`, the network is cut out, and all
-- else stays.
pub strip_tcp-address :
    (before addr rest : GoString)
    → contains_byte b'@' before ≡ false
    → contains_byte b')' addr ≡ false
    → strip_tcp (before ++ (str "@tcp(" ++ (addr ++ (str ")" ++ rest))))
      ≡ before ++ (str "@" ++ (addr ++ rest))
strip_tcp-address before addr rest no_at no_paren =
    let behind = addr ++ (str ")" ++ rest) in
    let pre = before ++ (str "@tcp(" ++ behind) in
    let kept = before ++ str "@" in
    strip_tcp-at pre (length before) (index-append b'@' (str "tcp(") before behind no_at)
    ∙ ap (λ k. close pre k (drop (length before + 5) pre))
        (take-suc-append before b'@' (str "tcp(" ++ behind))
    ∙ ap (close pre kept) (
        drop-add 5 (length before) pre
        ∙ ap (drop 5) (drop-append before (str "@tcp(" ++ behind))
        ∙ drop-append (str "@tcp(") behind)
    ∙ close-at pre kept behind (length addr) (index-append b')' [] addr rest no_paren)
    ∙ ap (λ a. kept ++ a ++ drop (suc (length addr)) behind) (take-append addr (str ")" ++ rest))
    ∙ ap (λ b. kept ++ addr ++ b)
        (ap (λ n. drop n behind) {x = suc (length addr)} {y = length addr + 1} (omega arith)
          ∙ drop-add 1 (length addr) behind
          ∙ ap (drop 1) (drop-append addr (str ")" ++ rest))
          ∙ drop-append (str ")") rest)
    ∙ append_assoc kept addr rest
    ∙ append_assoc before (str "@") (addr ++ rest)
