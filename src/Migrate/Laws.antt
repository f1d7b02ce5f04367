-- ===== src/Migrate/Laws.antt =====
-- What the loop over the entries does where it succeeds.
use mathlib.Core.Path.{ap₂}
use users.Prelude.{
  ◌≡◌, refl, ◌≢◌, sym, ◌∙◌, ap, inl, inr, Bool, true, false, Option, none, some, List, [], ◌∷◌,
  ◌++◌, append-nil, append_assoc, Bytes, bytes_eq-of_ne, All, All-map, Bool-cases, if◌then◌else◌,
}
use users.Prelude.Tables.{where_, sort_with, insert_with, All-sort_with, All-insert_with}
use users.Prelude.Pairs.{Pairs}
use users.Errors.{Result, ok, err, Error, wrap, ok-injective, Result-cases}
use users.Server.Status.{or_error}
use users.Server.Status.Laws.{or_error-ok}
use users.Migrate.Spec.{
  run_scripts, run_scripts-one, run_scripts-cons, is_new, unapplied, unapplied-append,
}
use users.Migrate.{
  Entry, Files, Schema, Session, T, Postgres, pure, lift, then_, ◌>>=◌, answer, statement,
  has_version, select_applied, exec_script, insert_version, read_version, exec_version,
  record_version, run_version, apply_unless, check_version, apply_version, apply_entry,
  apply_entries,
}

-- The entries of a directory differ in their names.
abbrev pub NamedApart : Entry → Entry → Type 0
NamedApart x y = x.name ≢ y.name

Pairs-insert_with :
    (le : Entry → Entry → Bool) (x : Entry) (ys : List Entry)
    → All (NamedApart x) ys
    → Pairs NamedApart ys
    → Pairs NamedApart (insert_with le x ys)
unfolding insert_with
Pairs-insert_with le x [] h hs = (tt, tt)
Pairs-insert_with le x (y ∷ ys) h hs = elim (Bool-cases (le x y)) [
  | inl e ↦ rw e (h, hs)
  | inr e ↦ rw e (
    All-insert_with (NamedApart y) le x ys (λ same. h.0 (sym same)) hs.0,
    Pairs-insert_with le x ys h.1 hs.1,
  )
]

pub Pairs-sort_with :
    (le : Entry → Entry → Bool) (xs : List Entry)
    → Pairs NamedApart xs
    → Pairs NamedApart (sort_with le xs)
unfolding sort_with
Pairs-sort_with le [] h = tt
Pairs-sort_with le (x ∷ xs) h =
    Pairs-insert_with le x (sort_with le xs) (All-sort_with (NamedApart x) le xs h.0)
      (Pairs-sort_with le xs h.1)

module _ {S : Type 0} where
  -- Where a sequence succeeds, its first part did, and the rest behind it.
  pub bind-ok :
      {A B : Type 0} (m : T S A) (f : A → T S B) (s : Session S) {b : B} {s' : Session S}
      → (m >>= f) s ≡ (ok b, s')
      → (a : A) × (s1 : Session S) × (m s ≡ (ok a, s1)) × (f a s1 ≡ (ok b, s'))
  unfolding ◌>>=◌
  bind-ok {A} m f s {b} {s'} h = go (m s).0 (m s).1 refl h
    where
      go :
          (r : Result A) (s1 : Session S)
          → m s ≡ (r, s1)
          → then_ r f s1 ≡ (ok b, s')
          → (a : A) × (s1 : Session S) × (m s ≡ (ok a, s1)) × (f a s1 ≡ (ok b, s'))
      go (ok a) s1 e g = (a, s1, e, g)
      go (err e) s1 e' g = absurd (cc)

  -- A statement that succeeds has run.
  pub statement-ok :
      {A : Type 0} (db : Postgres S) (f : Error → Error) (run : Schema S → Result A × Schema S)
      (s : Session S) {a : A} {s' : Session S}
      → statement db f run s ≡ (ok a, s')
      → run s.schema ≡ (ok a, s'.schema)
  unfolding statement answer or_error
  statement-ok {A} db f run s {a} {s'} h = go (db.fault s.clock) h
    where
      go :
          (fault : Option Error)
          → ◌≡◌ {A = Result A × Session S}
              (or_error f (answer fault run s).0, (answer fault run s).1)
              (ok a, s')
          → run s.schema ≡ (ok a, s'.schema)
      go (some e) g = absurd (cc)
      go none g =
          ap₂ (λ r schema. (r, schema)) (or_error-ok f _ (ap (λ x. x.0) g)) (ap (λ x. x.1.schema) g)

module _ {S : Type 0} (db : Postgres S) (files : Files) where
  -- What a run did to the schema, for the names it applied.
  abbrev pub Did : List Bytes → List Bytes → Schema S → Schema S → Type 0
  Did versions names before after =
      (after.versions ≡ some (versions ++ names))
      × (run_scripts db files names before.tables ≡ ok after.tables)

  exec_script-ok :
      (content : Bytes) (before : Schema S) {u : Unit {0}} {later : Schema S}
      → exec_script db content before ≡ (ok u, later)
      → (later.versions ≡ before.versions)
        × (db.exec_script content before.tables ≡ ok later.tables)
  unfolding exec_script
  exec_script-ok content before h = elim (Result-cases (db.exec_script content before.tables)) [
    | inl (e, failed) ↦ absurd (cc (rw (exec_script, failed) at h))
    | inr (tables, ran) ↦
        let same = ap (λ x. x.1) (rw (exec_script, ran) at h) in
        (ap (λ schema. schema.versions) (sym same), ran ∙ ap (λ schema. ok schema.tables) same)
  ]

  insert_version-ok :
      (version : Bytes) (before : Schema S) {versions : List Bytes} {u : Unit {0}}
      {later : Schema S}
      → before.versions ≡ some versions
      → insert_version version before ≡ (ok u, later)
      → (later.versions ≡ some (versions ++ version ∷ [])) × (later.tables ≡ before.tables)
  unfolding insert_version
  insert_version-ok version before {versions} known h =
      elim (Bool-cases (has_version version versions)) [
        | inl e ↦ absurd (cc (rw (insert_version, known, e) at h))
        | inr e ↦
            let same = ap (λ x. x.1) (rw (insert_version, known, e) at h) in
            (ap (λ schema. schema.versions) (sym same), ap (λ schema. schema.tables) (sym same))
      ]

  apply_unless-ok :
      (version : Bytes) (versions : List Bytes) (applied : Bool) (s s' : Session S)
      → s.schema.versions ≡ some versions
      → apply_unless db files version applied s ≡ (ok tt, s')
      → if applied then s.schema ≡ s'.schema else Did versions (version ∷ []) s.schema s'.schema
  unfolding apply_unless pure run_version read_version lift exec_version record_version
  apply_unless-ok version versions true s s' known h = ap (λ x. x.1.schema) h
  apply_unless-ok version versions false s s' known h =
      let (content, s1, read, rest) =
        bind-ok (read_version files version) (run_version db version) s h in
      let (u, s2, ran, recorded) =
        bind-ok (exec_version db content) (record_version db version) s1 rest in
      let found =
        or_error-ok (wrap "read migration") (files.read_file version) (ap (λ x. x.0) read) in
      let here : s.schema ≡ s1.schema = ap (λ x. x.1.schema) read in
      let (kept, done) =
        exec_script-ok content s1.schema
          (statement-ok db (wrap "apply migration") (exec_script db content) s1 ran) in
      let (added, same) =
        insert_version-ok version s2.schema
          (kept ∙ ap (λ schema. schema.versions) (sym here) ∙ known)
          (statement-ok db (wrap "record migration") (insert_version version) s2 recorded) in
      (
        added,
        run_scripts-one db files version found
            (ap (λ schema. db.exec_script content schema.tables) here ∙ done ∙ ap ok (sym same)),
      )

  select_applied-ok :
      (version : Bytes) (before : Schema S) {versions : List Bytes} {applied : Bool}
      {later : Schema S}
      → before.versions ≡ some versions
      → select_applied version before ≡ (ok applied, later)
      → (has_version version versions ≡ applied) × (before ≡ later)
  unfolding select_applied
  select_applied-ok version before known h =
      let ran = rw (select_applied, known) at h in
      (ok-injective (ap (λ x. x.0) ran), ap (λ x. x.1) ran)

  apply_version-ok :
      (version : Bytes) (versions : List Bytes) (s s' : Session S)
      → s.schema.versions ≡ some versions
      → apply_version db files version s ≡ (ok tt, s')
      → if has_version version versions
        then s.schema ≡ s'.schema
        else Did versions (version ∷ []) s.schema s'.schema
  unfolding apply_version check_version
  apply_version-ok version versions s s' known h =
      let (applied, s1, checked, rest) =
        bind-ok (check_version db version) (apply_unless db files version) s h in
      let (asked, here) =
        select_applied-ok version s.schema known
          (statement-ok db (wrap "check migration") (select_applied version) s checked) in
      rw (asked, here)
        (apply_unless-ok version versions applied s1 s'
          (ap (λ schema. schema.versions) (sym here) ∙ known) rest)

  -- What an entry did, and what those behind it did.
  Did-cons :
      (name : Bytes) (names versions : List Bytes) (before later last : Schema S)
      → Did versions (name ∷ []) before later
      → Did (versions ++ name ∷ []) names later last
      → Did versions (name ∷ names) before last
  Did-cons name names versions before later last h h' = (
    h'.0 ∙ ap some (append_assoc versions (name ∷ []) names),
    run_scripts-cons db files name names before.tables h.1 h'.1,
  )

  apply_entry-ok :
      (entry : Entry) (versions : List Bytes) (s s' : Session S)
      → s.schema.versions ≡ some versions
      → apply_entry db files entry s ≡ (ok tt, s')
      → if is_new versions entry
        then Did versions (entry.name ∷ []) s.schema s'.schema
        else s.schema ≡ s'.schema
  unfolding apply_entry pure
  apply_entry-ok entry versions s s' known h = elim (Bool-cases entry.is_dir) [
    | inl d ↦ rw d (ap (λ x. x.1.schema) (rw (apply_entry, d) at h))
    | inr d ↦
        let ran = apply_version-ok entry.name versions s s' known (rw (apply_entry, d) at h) in
        elim (Bool-cases (has_version entry.name versions)) [
          | inl e ↦ rw (d, e) (rw e at ran)
          | inr e ↦ rw (d, e) (rw e at ran)
        ]
  ]

  pub apply_entries-ok :
      (entries : List Entry) (versions : List Bytes) (s s' : Session S)
      → s.schema.versions ≡ some versions
      → Pairs NamedApart entries
      → apply_entries db files entries s ≡ (ok tt, s')
      → Did versions (unapplied versions entries) s.schema s'.schema
  unfolding apply_entries pure run_scripts where_
  apply_entries-ok [] versions s s' known distinct h =
      let here : s.schema ≡ s'.schema = ap (λ x. x.1.schema) h in
      (
        ap (λ schema. schema.versions) (sym here) ∙ known ∙ ap some (sym (append-nil versions)),
        ap (λ schema. ok schema.tables) here,
      )
  apply_entries-ok (entry ∷ entries) versions s s' known distinct h =
      let (u, s1, first, rest) =
        bind-ok (apply_entry db files entry) (λ _. apply_entries db files entries) s h in
      let entered = apply_entry-ok entry versions s s1 known first in
      elim (Bool-cases (is_new versions entry)) [
        | inl e ↦
            let did : Did versions (entry.name ∷ []) s.schema s1.schema = rw e at entered in
            let later =
              apply_entries-ok entries (versions ++ entry.name ∷ []) s1 s' did.0 distinct.1 rest in
            rw e (
              Did-cons entry.name (unapplied versions entries) versions s.schema s1.schema s'.schema
                did
                (rw
                  (unapplied-append entry.name versions entries (
                    All-map entries (λ y apart. bytes_eq-of_ne entry.name y.name apart) distinct.0))
                  at later))
        | inr e ↦
            let here : s.schema ≡ s1.schema = rw e at entered in
            rw (e, here)
              (apply_entries-ok entries versions s1 s'
                (ap (λ schema. schema.versions) (sym here) ∙ known) distinct.1 rest)
      ]
