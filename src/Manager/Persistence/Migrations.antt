-- ===== src/Manager/Persistence/Migrations.antt =====
-- The migrations of the database (crates/download-manager/src/persistence.rs).
use mathlib.Core.List.{append-nil, append_assoc}
use open_download_manager.Prelude.{
  ℕ, ◌≡◌, refl, sym, ap, ◌∙◌, Bool, true, false, String, List, [], ◌∷◌, ◌++◌, arith, ◌==◌, any,
  ◌||◌, ◌&&◌, not, if◌then◌else◌, Bool-cases, inl, inr, ◌⊎◌,
}
use open_download_manager.Core.Error.{Result, ok, err, is_ok}
use open_download_manager.Core.Display.{decimal}
use open_download_manager.Core.Libs.{SystemTime}
use open_download_manager.Manager.Persistence.Columns.{
  Sql, SqlError, fine, broken, ◌>>=◌, as_u64, sys_to_ms,
}
use open_download_manager.Manager.Persistence.{
  Sqlite, create_schema_migrations, migrations, collect, applied_migrations, apply, kept, and_then,
  migrate_loop, migrate_from, migrate, db_err,
}
use open_download_manager.Manager.Persistence.Listing.{all_fine, >>=-fine}

abbrev pub has : ℕ → List ℕ → Bool
has u versions = any (λ v. v == u) versions

-- The recorded versions and the migrations that have run, as the statements change and read them.
pub record IsSchema (S : Sqlite) : Type 1 where
  pub versions : S.Conn → List ℕ
  pub ran : S.Conn → List String
  pub tx_versions : S.Tx → List ℕ
  pub tx_ran : S.Tx → List String
  pub select :
      (c : S.Conn) (l : List (Sql ℕ)) → S.select_versions c ≡ fine l → l ≡ all_fine (versions c)
  pub create-kept :
      (c later : S.Conn)
      → S.execute_batch create_schema_migrations c ≡ fine later
      → (versions later ≡ versions c) × (ran later ≡ ran c)
  pub begin-kept :
      (c : S.Conn) (t : S.Tx)
      → S.transaction c ≡ fine t
      → (tx_versions t ≡ versions c) × (tx_ran t ≡ ran c)
  pub batch-runs :
      (sql : String) (t later : S.Tx)
      → S.tx_execute_batch sql t ≡ fine later
      → (tx_versions later ≡ tx_versions t) × (tx_ran later ≡ tx_ran t ++ sql ∷ [])
  pub insert-records :
      (version u : ℕ) (at : String) (t later : S.Tx)
      → S.insert_version version at t ≡ fine later
      → (has u (tx_versions later) ≡ (version == u || has u (tx_versions t)))
        × (tx_ran later ≡ tx_ran t)
  pub commit-kept :
      (t : S.Tx) (later : S.Conn)
      → S.commit t ≡ fine later
      → (versions later ≡ tx_versions t) × (ran later ≡ tx_ran t)

abbrev pub pending : List ℕ → List (ℕ × String) → List (ℕ × String)
pending applied [] = []
pending applied ((version, sql) ∷ rest) =
    let more = pending applied rest in if has version applied then more else (version, sql) ∷ more

abbrev pub sqls : List (ℕ × String) → List String
sqls [] = []
sqls ((version, sql) ∷ rest) = sql ∷ sqls rest

abbrev pub includes : ℕ → List (ℕ × String) → Bool
includes u [] = false
includes u ((version, sql) ∷ rest) = version == u || includes u rest

module _ (S : Sqlite) (T : IsSchema S) (now : ℕ → SystemTime) where
  apply-runs :
      (version u : ℕ) (sql : String) (c later : S.Conn)
      → apply S (now version) version sql c ≡ fine later
      → (has u (T.versions later) ≡ (version == u || has u (T.versions c)))
        × (T.ran later ≡ T.ran c ++ sql ∷ [])
  unfolding apply
  apply-runs version u sql c later h =
      let at = decimal (as_u64 (sys_to_ms (now version))) in
      let (t3, e3, h3) =
        >>=-fine (S.transaction c >>= S.tx_execute_batch sql >>= S.insert_version version at)
          S.commit later h in
      let (t2, e2, h2) =
        >>=-fine (S.transaction c >>= S.tx_execute_batch sql) (S.insert_version version at) t3 e3 in
      let (t1, e1, h1) = >>=-fine (S.transaction c) (S.tx_execute_batch sql) t2 e2 in
      let (v1, r1) = T.begin-kept c t1 e1 in
      let (v2, r2) = T.batch-runs sql t1 t2 h1 in
      let (v3, r3) = T.insert-records version u at t2 t3 h2 in
      let (v4, r4) = T.commit-kept t3 later h3 in
      (
        ap (has u) v4 ∙ v3 ∙ ap (λ l. version == u || has u l) (v2 ∙ v1),
        r4 ∙ r3 ∙ r2 ∙ ap (λ l. l ++ sql ∷ []) r1,
      )

  -- What a run has done from a state: some of the migrations that were pending, in their order, each
  -- recorded; and all of them if it ended well.
  pub record Ran (todo : List (ℕ × String)) (c : S.Conn) (x : Result (Unit {0}) × S.Conn)
      : Type 0 where
    pub first : List (ℕ × String)
    pub rest : List (ℕ × String)
    pub split : todo ≡ first ++ rest
    pub ran : T.ran x.1 ≡ T.ran c ++ sqls first
    pub versions : (u : ℕ) → has u (T.versions x.1) ≡ (includes u first || has u (T.versions c))
    pub all : is_ok x.0 ≡ true → rest ≡ []

  nothing-Ran :
      (r : Result (Unit {0})) (todo : List (ℕ × String)) (c : S.Conn)
      → (is_ok r ≡ true → todo ≡ [])
      → Ran todo c (r, c)
  nothing-Ran r todo c all = record {
    first = [];
    rest = todo;
    split = refl;
    ran = sym (append-nil (T.ran c));
    versions = λ u. refl;
    all = all;
  }

  loop-Ran :
      (applied : List ℕ) (ms : List (ℕ × String)) (c : S.Conn)
      → Ran (pending applied ms) c (migrate_loop S now applied ms c)
  unfolding migrate_loop
  loop-Ran applied [] c = nothing-Ran (ok tt) [] c (λ _. refl)
  loop-Ran applied ((version, sql) ∷ ms) c = elim (Bool-cases (has version applied)) [
    | inl there ↦ rw there (loop-Ran applied ms c)
    | inr missing ↦
        rw missing (go (apply S (now version) version sql c) refl (λ d. loop-Ran applied ms d))
  ]
    where
      go :
          (x : Sql S.Conn)
          → apply S (now version) version sql c ≡ x
          → ((d : S.Conn) → Ran (pending applied ms) d (migrate_loop S now applied ms d))
          → Ran
              ((version, sql) ∷ pending applied ms)
              c
              (and_then S (kept S c x) (migrate_loop S now applied ms))
      go (broken e) h later =
          nothing-Ran (err (db_err S e)) ((version, sql) ∷ pending applied ms) c (λ k. absurd cc)
      go (fine d) h later =
          let v = later d in
          let run = λ (u : ℕ). apply-runs version u sql c d h in
          record {
            first = (version, sql) ∷ v.first;
            rest = v.rest;
            split = ap (λ l. (version, sql) ∷ l) v.split;
            ran =
                v.ran
                ∙ ap (λ l. l ++ sqls v.first) (run 0).1
                ∙ append_assoc (T.ran c) (sql ∷ []) (sqls v.first);
            versions = λ u. ground (arith, v.versions u, (run u).0);
            all = v.all;
          }

  migrate_from-Ran :
      (r : Sql (List ℕ)) (c : S.Conn)
      → (r ≡ fine (T.versions c)) ⊎ ((e : SqlError) × (r ≡ broken e))
      → Ran (pending (T.versions c) migrations) c (migrate_from S now r c)
  unfolding migrate_from
  migrate_from-Ran (broken e) c h =
      nothing-Ran (err (db_err S e)) (pending (T.versions c) migrations) c (λ k. absurd cc)
  migrate_from-Ran (fine applied) c (inl same) =
      let e : applied ≡ T.versions c = cc in rw e (loop-Ran (T.versions c) migrations c)
  migrate_from-Ran (fine applied) c (inr (e, h)) = absurd cc

  collect-all_fine : (l : List ℕ) → collect (λ v. fine v) (all_fine l) ≡ fine l
  unfolding collect
  collect-all_fine [] = refl
  collect-all_fine (v ∷ l) = rw (collect-all_fine l) refl

  applied_migrations-reads :
      (c : S.Conn)
      → (applied_migrations S c ≡ fine (T.versions c))
        ⊎ ((e : SqlError) × (applied_migrations S c ≡ broken e))
  unfolding applied_migrations
  applied_migrations-reads c = go (S.select_versions c) refl
    where
      go :
          (x : Sql (List (Sql ℕ)))
          → S.select_versions c ≡ x
          → ((x >>= collect (λ v. fine v)) ≡ fine (T.versions c))
            ⊎ ((e : SqlError) × ((x >>= collect (λ v. fine v)) ≡ broken e))
      go (broken e) h = inr (e, refl)
      go (fine l) h =
          inl (ap (collect (λ v. fine v)) (T.select c l h) ∙ collect-all_fine (T.versions c))

  -- A run of `migrate` from any state of the database.
  migrate-Ran : (c : S.Conn) → Ran (pending (T.versions c) migrations) c (migrate S now c)
  unfolding migrate
  migrate-Ran c = go (S.execute_batch create_schema_migrations c) refl
    where
      go :
          (x : Sql S.Conn)
          → S.execute_batch create_schema_migrations c ≡ x
          → Ran
              (pending (T.versions c) migrations)
              c
              (and_then S (kept S c x) (λ d. migrate_from S now (applied_migrations S d) d))
      go (broken e) h =
          nothing-Ran (err (db_err S e)) (pending (T.versions c) migrations) c (λ k. absurd cc)
      go (fine d) h =
          let (v, r) = T.create-kept c d h in
          let run = migrate_from-Ran (applied_migrations S d) d (applied_migrations-reads d) in
          record {
            first = run.first;
            rest = run.rest;
            split = ap (λ l. pending l migrations) (sym v) ∙ run.split;
            ran = run.ran ∙ ap (λ l. l ++ sqls run.first) r;
            versions = λ u. run.versions u ∙ ap (λ l. includes u run.first || has u l) v;
            all = run.all;
          }

abbrev is_distinct : List (ℕ × String) → Bool
is_distinct [] = true
is_distinct ((version, sql) ∷ rest) = not (includes version rest) && is_distinct rest

includes-apart :
    (u v : ℕ) (ms : List (ℕ × String))
    → includes v ms ≡ false
    → includes u ms ≡ true
    → (v == u) ≡ false
includes-apart u v ms h k = elim (Bool-cases (v == u)) [
  | inl same ↦
      let e : v ≡ u = ground (arith, same) in
      let both : true ≡ false = sym k ∙ ap (λ w. includes w ms) (sym e) ∙ h in absurd cc
  | inr apart ↦ apart
]

-- What is left of the pending migrations is what is pending once the others are recorded.
pending-rest :
    (applied later : List ℕ) (ms first rest : List (ℕ × String))
    → is_distinct ms ≡ true
    → pending applied ms ≡ first ++ rest
    → ((u : ℕ) → includes u ms ≡ true → has u later ≡ (includes u first || has u applied))
    → pending later ms ≡ rest
pending-rest applied later [] [] rest d h v = h
pending-rest applied later [] (m ∷ first) rest d h v = cc
pending-rest applied later ((version, sql) ∷ ms) first rest d h v =
    let fresh : includes version ms ≡ false = ground (arith, d) in
    let d' : is_distinct ms ≡ true = ground (arith, d) in
    let mine = v version (ground arith) in
    let others = λ (u : ℕ) (k : includes u ms ≡ true). v u (ground (arith, k)) in
    elim (Bool-cases (has version applied)) [
      | inl there ↦
          let there_later : has version later ≡ true = ground (arith, mine, there) in
          rw there_later (pending-rest applied later ms first rest d' (rw there at h) others)
      | inr missing ↦
          go first rest fresh d' missing (rw missing at h) mine others
            (λ first rest. pending-rest applied later ms first rest d')
    ]
  where
    go :
        (first rest : List (ℕ × String))
        → includes version ms ≡ false
        → is_distinct ms ≡ true
        → has version applied ≡ false
        → (version, sql) ∷ pending applied ms ≡ first ++ rest
        → has version later ≡ (includes version first || has version applied)
        → ((u : ℕ) → includes u ms ≡ true → has u later ≡ (includes u first || has u applied))
        → ((first rest : List (ℕ × String))
            → pending applied ms ≡ first ++ rest
            → ((u : ℕ) → includes u ms ≡ true → has u later ≡ (includes u first || has u applied))
            → pending later ms ≡ rest)
        → pending later ((version, sql) ∷ ms) ≡ rest
    go [] rest fresh d missing h mine others next_rest =
        rw (mine, missing)
          (ap (λ l. (version, sql) ∷ l) (next_rest [] (pending applied ms) refl others) ∙ h)
    go (m ∷ first) rest fresh d missing h mine others next_rest =
        let same : (version, sql) ≡ m = cc in
        let tails : pending applied ms ≡ first ++ rest = cc in
        let version_same : version ≡ m.0 = ap (λ (q : ℕ × String). q.0) same in
        let now_there : has version later ≡ true = ground (arith, mine, version_same) in
        rw now_there (
          next_rest first rest tails (λ u k.
            let apart = includes-apart u version ms fresh k in
            ground (arith, others u k, apart, version_same)))

sqls-append : (s t : List (ℕ × String)) → sqls (s ++ t) ≡ sqls s ++ sqls t
sqls-append [] t = refl
sqls-append ((version, sql) ∷ s) t = ap (λ l. sql ∷ l) (sqls-append s t)

-- Migrations are resumed where they were left: whatever a first run of `migrate` has done before it
-- ended, well or not, a second run that ends well has completed it, so that over both each migration
-- that was pending has run exactly once, in the order of the list, and none is pending any more. This
-- takes SQLite at its word.
pub migrate-resumes :
    (S : Sqlite) (T : IsSchema S) (now : ℕ → SystemTime) (c : S.Conn)
    → is_ok (migrate S now (migrate S now c).1).0 ≡ true
    → let again = migrate S now (migrate S now c).1 in
      (T.ran again.1 ≡ T.ran c ++ sqls (pending (T.versions c) migrations))
      × (pending (T.versions again.1) migrations ≡ [])
migrate-resumes S T now c h =
    let v = migrate-Ran S T now c in
    let c1 = (migrate S now c).1 in
    let w = migrate-Ran S T now c1 in
    let again = migrate S now c1 in
    let left : pending (T.versions c1) migrations ≡ v.rest =
      pending-rest (T.versions c) (T.versions c1) migrations v.first v.rest refl v.split
        (λ u k. v.versions u) in
    let none_left : pending (T.versions again.1) migrations ≡ w.rest =
      pending-rest (T.versions c1) (T.versions again.1) migrations w.first w.rest refl w.split
        (λ u k. w.versions u) in
    let second : w.first ≡ v.rest =
      sym (append-nil w.first) ∙ ap (λ l. w.first ++ l) (sym (w.all h)) ∙ sym w.split ∙ left in
    (
      w.ran
          ∙ ap (λ l. l ++ sqls w.first) v.ran
          ∙ append_assoc (T.ran c) (sqls v.first) (sqls w.first)
          ∙ ap (λ l. T.ran c ++ l)
              (sym (sqls-append v.first w.first)
                ∙ ap sqls (ap (λ l. v.first ++ l) second ∙ sym v.split)),
      none_left ∙ w.all h,
    )
