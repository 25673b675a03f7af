-- ===== src/Store/Sql/Searches.antt =====
-- internal/store/postgres.go and mysql.go: how many results a search gives, and when it gives any.
use go_rdap_server.Base.{
  ◌≡◌, refl, sym, ap, ◌∙◌, ℕ, suc, ◌≤◌, ◌↔◌, Option, none, some, List, [], ◌∷◌, map, length,
  length-map, arith, inl, inr, Result, ok, err, ◌>>=◌, GoString, str, ◌++◌, pos, Result-cases,
}
use go_rdap_server.Store.Memory.Bounded.{AtMost, IsBounded}
use go_rdap_server.Store.Sql.{Decoder, Cursor, Reads, as_error, labelled, scan_rows, pattern_to_sql}
use go_rdap_server.Store.Sql.Postgres
use go_rdap_server.Store.Sql.Postgres.Backend.{postgres_interface}

module _ {R A : Type 0} (scan : Result GoString R → Result GoString A) where
  scan_rows_sound :
      (rows : List (Result GoString R)) (last : Option GoString) (xs : List A)
      → scan_rows scan rows last ≡ ok xs
      → (map scan rows ≡ map ok xs) × (last ≡ none)
  unfolding scan_rows
  scan_rows_sound [] none xs e = let same : [] ≡ xs = cc e in (ap (map ok) same, refl)
  scan_rows_sound [] (some x) xs e = cc e
  scan_rows_sound (r ∷ rows) last xs e = elim (Result-cases (scan r)) [
    | inl (x, bad) ↦ cc (rw (bad, scan_rows) at e)
    | inr (a, good) ↦ elim (Result-cases (scan_rows scan rows last)) [
      | inl (x, bad) ↦ cc (rw (good, bad, scan_rows) at e)
      | inr (ys, rest) ↦
          let (each, fine) = scan_rows_sound rows last ys rest in
          (cc (rw (good, rest, scan_rows) at e, good, each), fine)
    ]
  ]

  scan_rows_complete :
      (rows : List (Result GoString R)) (xs : List A)
      → map scan rows ≡ map ok xs
      → scan_rows scan rows none ≡ ok xs
  unfolding scan_rows
  scan_rows_complete [] [] e = refl
  scan_rows_complete [] (x ∷ xs) e = cc e
  scan_rows_complete (r ∷ rows) [] e = cc e
  scan_rows_complete (r ∷ rows) (x ∷ xs) e =
      let first : scan r ≡ ok x = cc e in
      let each : map scan rows ≡ map ok xs = cc e in
      rw (first, scan_rows, scan_rows_complete rows xs each) refl

  -- The loop over rows gives results exactly if every row scans and the cursor ends without an
  -- error, and then it gives what the rows scan to, in their order.
  pub scan_rows_iff :
      (rows : List (Result GoString R)) (last : Option GoString) (xs : List A)
      → (scan_rows scan rows last ≡ ok xs) ↔ ((map scan rows ≡ map ok xs) × (last ≡ none))
  scan_rows_iff rows last xs =
      (scan_rows_sound rows last xs, λ (each, fine). rw fine (scan_rows_complete rows xs each))

  length-scan_rows :
      (rows : List (Result GoString R)) (last : Option GoString) (xs : List A)
      → scan_rows scan rows last ≡ ok xs
      → length xs ≡ length rows
  length-scan_rows rows last xs e =
      let (each, fine) = scan_rows_sound rows last xs e in
      sym (length-map ok xs) ∙ ap length (sym each) ∙ length-map scan rows

-- The documented meaning of LIMIT: at most that many rows.
abbrev pub Within : {R : Type 0} → ℕ → Result GoString (Cursor R) → Type 0
Within limit (err e) = Unit
Within limit (ok cursor) = length cursor.rows ≤ limit

-- A database that keeps to the limit of each search.
pub record KeepsLimits (reads : Reads) : Type 0 where
  pub domains_like : (q : GoString) (n : ℕ) → Within (suc n) (reads.domains_like q (pos (suc n)))
  pub domains_of_host :
      (q : GoString) (n : ℕ) → Within (suc n) (reads.domains_of_host q (pos (suc n)))
  pub entities_like : (q : GoString) (n : ℕ) → Within (suc n) (reads.entities_like q (pos (suc n)))
  pub entity_handles_like :
      (q : GoString) (n : ℕ) → Within (suc n) (reads.entity_handles_like q (pos (suc n)))
  pub hosts_like : (q : GoString) (n : ℕ) → Within (suc n) (reads.hosts_like q (pos (suc n)))
  pub hosts_with_address :
      (q : GoString) (n : ℕ) → Within (suc n) (reads.hosts_with_address q (pos (suc n)))

scanned-AtMost :
    {R A : Type 0} (limit : ℕ) (scan : Result GoString R → Result GoString A)
    (rows : List (Result GoString R)) (last : Option GoString)
    → length rows ≤ limit
    → AtMost limit (as_error (scan_rows scan rows last))
scanned-AtMost limit scan rows last h = elim (Result-cases (scan_rows scan rows last)) [
  | inl (e, bad) ↦ rw bad tt
  | inr (xs, good) ↦ rw good (omega (arith, length-scan_rows scan rows last xs good))
]

searched-AtMost :
    {R A : Type 0} (limit : ℕ) (prefix : GoString) (scan : Result GoString R → Result GoString A)
    (r : Result GoString (Cursor R))
    → Within limit r
    → AtMost limit (as_error (labelled prefix r >>= λ found. scan_rows scan found.rows found.last))
searched-AtMost limit prefix scan (err e) h = tt
searched-AtMost limit prefix scan (ok cursor) h =
    scanned-AtMost limit scan cursor.rows cursor.last h

-- The searches of the PostgreSQL store give at most as many results as a positive limit says, if
-- the database keeps to it.
pub postgres_interface-IsBounded :
    (decode : Decoder) (pool : Postgres.Pool)
    → KeepsLimits pool.reads
    → IsBounded (postgres_interface decode pool)
unfolding postgres_interface Postgres.search_domains_by_name Postgres.search_domains_by_ns
    Postgres.search_contacts_by_name Postgres.search_contacts_by_handle
    Postgres.search_nameservers_by_name Postgres.search_nameservers_by_ip
    Postgres.reverse_search_domains_by_entity
postgres_interface-IsBounded decode pool keeps =
    let domains = Postgres.scan_domain_row decode in
    let contacts = Postgres.scan_contact_row decode in
    let nameservers = Postgres.scan_nameserver_row decode in
    record {
      domains_by_name = λ q n.
          searched-AtMost (suc n) (str "search domains: ") domains
            (pool.reads.domains_like (pattern_to_sql q) (pos (suc n)))
            (keeps.domains_like (pattern_to_sql q) n);
      domains_by_ns = λ q n.
          searched-AtMost (suc n) (str "search domains by NS: ") domains
            (pool.reads.domains_of_host q (pos (suc n))) (keeps.domains_of_host q n);
      contacts_by_name = λ q n.
          let pattern = str "%" ++ pattern_to_sql q ++ str "%" in
          searched-AtMost (suc n) (str "search entities: ") contacts
            (pool.reads.entities_like pattern (pos (suc n))) (keeps.entities_like pattern n);
      contacts_by_handle = λ q n.
          searched-AtMost (suc n) (str "search entities by handle: ") contacts
            (pool.reads.entity_handles_like (pattern_to_sql q) (pos (suc n)))
            (keeps.entity_handles_like (pattern_to_sql q) n);
      nameservers_by_name = λ q n.
          searched-AtMost (suc n) (str "search nameservers: ") nameservers
            (pool.reads.hosts_like (pattern_to_sql q) (pos (suc n)))
            (keeps.hosts_like (pattern_to_sql q) n);
      nameservers_by_ip = λ q n.
          let pattern = str "[\"" ++ q ++ str "\"]" in
          searched-AtMost (suc n) (str "search nameservers by IP: ") nameservers
            (pool.reads.hosts_with_address pattern (pos (suc n)))
            (keeps.hosts_with_address pattern n);
      reverse_search = λ property q n. tt;
    }
