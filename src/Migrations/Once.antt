-- ===== src/Migrations/Once.antt =====
-- What a run of the migrations leaves behind.
use ai_researcher.Prelude.{
  ℕ, String, ◌≡◌, refl, sym, ap, subst, ◌∙◌, inl, inr, true, false, not, Option, none, some, List,
  [], ◌∷◌, ◌++◌, append_assoc, append-nil, nat_eq, beq_comm, beq_self, if_ind, select, All, All-map,
  contains, contains-append, Distinct, Bool-cases, Result, ok, err, need, ◌>>=◌, Yields, returns,
  raises, Yields-bind, Yields-map, Yields-ok, Yields-err, All_intro, arith,
}
use ai_researcher.Migrations.{
  Error, statement_failed, File, Migration, Database, versions, discover_migrations, apply_one,
  apply_all, migrate,
}
use ai_researcher.Migrations.Sequence.{
  versions-append, IsSequence, IsFailure, refused, discover_migrations-IsSequence,
}

abbrev pub names : List Migration → List String
names [] = []
names (m ∷ ms) = m.name ∷ names ms

-- The migrations that the table does not list.
abbrev pub pending : List ℕ → List Migration → List Migration
pending applied = select (λ m. not (contains applied m.version))

names-append : (xs ys : List Migration) → names (xs ++ ys) ≡ names xs ++ names ys
names-append [] ys = refl
names-append (x ∷ xs) ys = ap (λ (l : List String). x.name ∷ l) (names-append xs ys)

module _ {S : Type 0} (execute : String → S → Option S) where
  abbrev IsApart : List Migration → List Migration → Type 0
  IsApart done ms = All (λ m. contains (versions done) m.version ≡ false) ms

  IsApart-snoc :
      (done : List Migration) (m : Migration) (ms : List Migration)
      → IsApart done ms
      → contains (versions ms) m.version ≡ false
      → IsApart (done ++ m ∷ []) ms
  IsApart-snoc done m [] h k = tt
  IsApart-snoc done m (x ∷ ms) h k = (
    subst (λ (l : List ℕ). contains l x.version ≡ false) (sym (versions-append done (m ∷ [])))
        (ground (
          arith,
          h.0,
          contains-append (versions done) (m.version ∷ []) x.version,
          beq_comm m.version x.version,
        )),
    IsApart-snoc done m ms h.1 (ground arith),
  )

  -- The texts of the migrations lead, one after the other, from a schema to another.
  abbrev pub IsExecuted : List Migration → S → S → Type 0
  IsExecuted [] before after = before ≡ after
  IsExecuted (m ∷ ms) before after =
      (middle : S) × (execute m.text before ≡ some middle) × IsExecuted ms middle after

  IsExecuted-snoc :
      (ms : List Migration) (m : Migration) (before middle after : S)
      → IsExecuted ms before middle
      → execute m.text middle ≡ some after
      → IsExecuted (ms ++ m ∷ []) before after
  IsExecuted-snoc [] m before middle after h k = (after, ap (execute m.text) h ∙ k, refl)
  IsExecuted-snoc (x ∷ ms) m before middle after (next, q, h) k =
      (next, q, IsExecuted-snoc ms m next middle after h k)

  -- The schema, the table and the names returned, after the migrations `done`.
  abbrev IsDone : Database S → List Migration → Database S × List String → Type 0
  IsDone start done r =
      (r.0.applied ≡ start.applied ++ versions done)
      × (r.1 ≡ names done)
      × IsExecuted done start.schema r.0.schema

  executed :
      (m : Migration) (schema : S)
      → Yields
          (IsFailure execute)
          (λ next. execute m.text schema ≡ some next)
          (need (execute m.text schema) statement_failed)
  executed m schema = go (execute m.text schema) refl
    where
      go :
          (o : Option S)
          → execute m.text schema ≡ o
          → Yields
              (IsFailure execute)
              (λ next. execute m.text schema ≡ some next)
              (need o statement_failed)
      go none q = raises (refused m schema q)
      go (some next) q = returns q

  apply_one-IsDone :
      (start : Database S) (m : Migration) (done : List Migration) (r : Database S × List String)
      → IsDone start done r
      → contains (versions done) m.version ≡ false
      → contains start.applied m.version ≡ false
      → Yields
          (IsFailure execute)
          (IsDone start (done ++ m ∷ []))
          (apply_one execute start.applied m r)
  unfolding apply_one
  apply_one-IsDone start m done (db, now) h a new =
      let fresh : contains db.applied m.version ≡ false =
        subst (λ (l : List ℕ). contains l m.version ≡ false) (sym h.0)
          (ground (arith, contains-append start.applied (versions done) m.version)) in
      rw (new, fresh)
        (Yields-bind _ _ (executed m db.schema) λ schema run. returns (
          ap (λ (l : List ℕ). l ++ m.version ∷ []) h.0
              ∙ append_assoc start.applied (versions done) (m.version ∷ [])
              ∙ ap (λ (l : List ℕ). start.applied ++ l) (sym (versions-append done (m ∷ []))),
          ap (λ (l : List String). l ++ m.name ∷ []) h.1 ∙ sym (names-append done (m ∷ [])),
          IsExecuted-snoc done m start.schema db.schema schema h.2 run,
        ))

  apply_one-old :
      (applied : List ℕ) (m : Migration) (r : Database S × List String)
      → contains applied m.version ≡ true
      → apply_one execute applied m r ≡ ok r
  unfolding apply_one
  apply_one-old applied m r old = rw old refl

  apply_all-IsDone :
      (start : Database S) (ms done : List Migration) (r : Database S × List String)
      → IsDone start done r
      → IsApart done ms
      → Distinct (versions ms)
      → Yields
          (IsFailure execute)
          (IsDone start (done ++ pending start.applied ms))
          (apply_all execute start.applied ms r)
  unfolding apply_all
  apply_all-IsDone start [] done r h a d =
      returns (subst (λ l. IsDone start l r) (sym (append-nil done)) h)
  apply_all-IsDone start (m ∷ ms) done r h a d =
      let applied = start.applied in
      elim (Bool-cases (contains applied m.version)) [
        | inl old ↦
            rw (old, apply_one-old applied m r old) (apply_all-IsDone start ms done r h a.1 d.1)
        | inr new ↦ rw new (
            Yields-bind _ _ (apply_one-IsDone start m done r h a.0 new) λ next k.
              subst
                (λ l.
                  Yields (IsFailure execute) (IsDone start l) (apply_all execute applied ms next))
                (append_assoc done (m ∷ []) (pending applied ms))
                (apply_all-IsDone start ms (done ++ m ∷ []) next k (IsApart-snoc done m ms a.1 d.0)
                  d.1))
      ]

  -- Nothing is left to do when the table lists every version.
  apply_all-none :
      (applied : List ℕ) (ms : List Migration) (r : Database S × List String)
      → All (λ m. contains applied m.version ≡ true) ms
      → apply_all execute applied ms r ≡ ok r
  unfolding apply_all
  apply_all-none applied [] r h = refl
  apply_all-none applied (m ∷ ms) r h =
      rw (apply_one-old applied m r h.0) (apply_all-none applied ms r h.1)

  -- A migration is listed from the start, or among those that were pending.
  All-listed :
      (applied : List ℕ) (ms : List Migration)
      → All (λ m. contains (applied ++ versions (pending applied ms)) m.version ≡ true) ms
  All-listed applied [] = tt
  All-listed applied (m ∷ ms) =
      let rest = pending applied ms in
      if_ind (λ l. All (λ x. contains (applied ++ versions l) x.version ≡ true) (m ∷ ms))
        (not (contains applied m.version))
        (λ new. (
          ground (
            arith,
            beq_self m.version,
            contains-append applied (m.version ∷ versions rest) m.version,
          ),
          All-map _ _ ms
              (λ x h. ground (
                arith,
                contains-append applied (versions rest) x.version,
                contains-append applied (m.version ∷ versions rest) x.version,
              ))
              (All-listed applied ms),
        ))
        (λ old. (
          ground (arith, contains-append applied (versions rest) m.version),
          All-listed applied ms,
        ))

  -- What a successful run leaves: the schema is what the texts of the pending migrations, one after
  -- the other, make of the one before, the table lists the pending migrations after the others, in the
  -- order of the sequence, the names returned are theirs, and another run changes nothing.
  pub record IsMigrated (files : List File) (db : Database S) (r : Database S × List String)
      : Type 0 where
    pub sequence : List Migration
    pub found : discover_migrations files ≡ ok sequence
    pub ordered : IsSequence files sequence
    pub listed : r.0.applied ≡ db.applied ++ versions (pending db.applied sequence)
    pub named : r.1 ≡ names (pending db.applied sequence)
    pub changed : IsExecuted (pending db.applied sequence) db.schema r.0.schema
    pub again : migrate execute files r.0 ≡ ok (r.0, [])

-- A run of `migrate` applies exactly the files' migrations that the table does not list, in numeric
-- order:
-- the schema is what their texts make of the one before, each on the schema the last one left; and a
-- second run applies none; a run fails only for a bad or repeated version or a file that the
-- database refuses, never for the primary key of the table.
pub migrate-IsMigrated :
    {S : Type 0} (execute : String → S → Option S) (files : List File) (db : Database S)
    → Yields (IsFailure execute) (IsMigrated execute files db) (migrate execute files db)
unfolding migrate
migrate-IsMigrated execute files db =
    go (discover_migrations files) refl (discover_migrations-IsSequence execute files)
  where
    go :
        (r : Result Error (List Migration))
        → discover_migrations files ≡ r
        → Yields (IsFailure execute) (IsSequence files) r
        → Yields
            (IsFailure execute)
            (IsMigrated execute files db)
            (r >>= λ ms. apply_all execute db.applied ms (db, []))
    go (err e) q y = raises (Yields-err y refl)
    go (ok ms) q y =
        let ordered = Yields-ok y refl in
        Yields-map
          (λ r h. record {
            sequence = ms;
            found = q;
            ordered = ordered;
            listed = h.0;
            named = h.1;
            changed = h.2;
            again =
                ap (λ x. x >>= λ l. apply_all execute r.0.applied l (r.0, [])) q
                ∙ apply_all-none execute r.0.applied ms (r.0, [])
                    (subst (λ (l : List ℕ). All (λ m. contains l m.version ≡ true) ms) (sym h.0)
                      (All-listed execute db.applied ms));
          })
          (apply_all-IsDone execute db ms [] (db, []) (sym (append-nil db.applied), refl, refl)
            (All_intro _ ms (λ m. refl)) ordered.distinct)
