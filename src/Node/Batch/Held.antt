-- ===== src/Node/Batch/Held.antt =====
-- The policies that the table holds, and what one policy of a batch may do to them.
use lohpi.Common.{
  ltb, leb, if◌then◌else◌, Bool-cases, Option-cases, Outcome, ok, panic, ℕ, String, ◌≡◌, refl, sym,
  ap, ◌∙◌, ◌≢◌, ◌⊎◌, inl, inr, Bool, true, false, ◌&&◌, Option, none, some, List, [], ◌∷◌, arith,
  str_eq, eq_iff,
}
use lohpi.Proto.{Policy}
use lohpi.Extern.{map_some}
use lohpi.Indexer.{Row, Services, State, set_policy}
use lohpi.Indexer.Uncached.{IsDate, Readable, uncached, version_of}

-- the content and the version of a policy
abbrev pub Held : Type 0
Held = Bool × ℕ

abbrev pub held_of : Option Row → Option Held
held_of none = none
held_of (some r) = some (r.policy_content, r.policy_version)

-- what one policy of a batch makes of the policy held for `k`
abbrev pub newer : String → Option Policy → Held → Held
newer k none h = h
newer k (some p) h =
    if str_eq p.dataset_identifier k && ltb h.1 p.version then (p.content, p.version) else h

abbrev pub newest : String → List (Option Policy) → Held → Held
newest k [] h = h
newest k (p ∷ ps) h = newest k ps (newer k p h)

module _ (ext : Services) where
  open ext use {table, timestamp_text}

  -- the policy that the table holds
  abbrev pub held_at : table.Db → String → Option Held
  held_at db k = held_of (table.row db k)

  abbrev pub AllReadable : table.Db → Type 0
  AllReadable db = (k : String) → Readable ext (table.row db k)

  -- the policies have dates that can be read back from the table
  abbrev pub DatedPolicy : Option Policy → Type 0
  DatedPolicy none = Unit
  DatedPolicy (some p) = IsDate ext (timestamp_text p.date_applied)

  abbrev pub Dated : List (Option Policy) → Type 0
  Dated [] = Unit
  Dated (p ∷ ps) = DatedPolicy p × Dated ps

  -- no panic, and the policies held are those that `f` makes of the old ones
  pub record Gives (db : table.Db) (f : String → Held → Held)
      (result : State ext × Outcome (Unit {0})) : Type 0 where
    pub db' : table.Db
    pub state : result.0 ≡ uncached ext db'
    pub no_panic : result.1 ≢ panic
    pub readable : AllReadable db'
    pub policies :
        (k : String) → str_eq k "" ≡ false → held_at db' k ≡ map_some (f k) (held_at db k)

  pub Readable-set_policy :
      (p : Policy) (r : Row)
      → Readable ext (some r)
      → IsDate ext (timestamp_text p.date_applied)
      → Readable ext (some (set_policy ext p r))
  unfolding set_policy
  Readable-set_policy p r (created, applied) dated = (created, dated)

  pub AllReadable-update :
      (db db' : table.Db) (p : Policy) (r : Row)
      → AllReadable db
      → IsDate ext (timestamp_text p.date_applied)
      → table.row db p.dataset_identifier ≡ some r
      → table.update db p.dataset_identifier (set_policy ext p) ≡ some db'
      → AllReadable db'
  AllReadable-update db db' p r readable dated row e k =
      rw (table.update_row db p.dataset_identifier (set_policy ext p) db' k e, row)
        (elim (Bool-cases (str_eq p.dataset_identifier k)) [
          | inl same ↦
              rw same (Readable-set_policy p r (rw row at (readable p.dataset_identifier)) dated)
          | inr other ↦ rw other (readable k)
        ])

  pub held_at-update :
      (db db' : table.Db) (p : Policy) (r : Row) (k : String)
      → table.row db p.dataset_identifier ≡ some r
      → table.update db p.dataset_identifier (set_policy ext p) ≡ some db'
      → ltb r.policy_version p.version ≡ true
      → held_at db' k ≡ map_some (newer k (some p)) (held_at db k)
  unfolding set_policy
  held_at-update db db' p r k row e new =
      rw (table.update_row db p.dataset_identifier (set_policy ext p) db' k e)
        (elim (Bool-cases (str_eq p.dataset_identifier k)) [
          | inl same ↦
              rw
                (
                  same,
                  ← ((eq_iff p.dataset_identifier k).0 same),
                  row,
                  new,
                  (eq_iff p.dataset_identifier p.dataset_identifier).1 refl,
                )
                refl
          | inr other ↦ elim (Option-cases (table.row db k)) [
            | inl gone ↦ rw (gone, other) refl
            | inr (old, there) ↦ rw (there, other) refl
          ]
        ])

  pub true-ne-false : true ≢ false
  true-ne-false h = cc

  pub none-ne-some : (r : Row) → none ≢ some r
  none-ne-some r h = cc

  pub ok-ne-panic :
      (result : State ext × Outcome (Unit {0})) (s : State ext)
      → result ≡ (s, ok tt)
      → result.1 ≢ panic
  ok-ne-panic result s e h = cc

  pub map_some-same :
      (g : Held → Held) (o : Option Row)
      → ((r : Row)
          → o ≡ some r
          → g (r.policy_content, r.policy_version) ≡ (r.policy_content, r.policy_version))
      → held_of o ≡ map_some g (held_of o)
  map_some-same g none h = refl
  map_some-same g (some r) h = ap some (sym (h r refl))

  -- a policy that is not applied, where none of the policies held would give way to it
  pub not_applied :
      (db : table.Db) (p : Option Policy) (x : Outcome (Unit {0}))
      → AllReadable db
      → x ≢ panic
      → ((k : String) (r : Row)
          → str_eq k "" ≡ false
          → table.row db k ≡ some r
          → newer k p (r.policy_content, r.policy_version) ≡ (r.policy_content, r.policy_version))
      → Gives db (λ k. newer k p) (uncached ext db, x)
  not_applied db p x readable calm old = record {
    db' = db;
    state = refl;
    no_panic = calm;
    readable = readable;
    policies = λ k named. map_some-same (newer k p) (table.row db k) (λ r row. old k r named row);
  }

  pub outdated_old :
      (db : table.Db) (p : Policy) (r : Row)
      → table.row db p.dataset_identifier ≡ some r
      → leb p.version r.policy_version ≡ true
      → (k : String) (r' : Row) → str_eq k "" ≡ false
      → table.row db k ≡ some r'
      → newer k (some p) (r'.policy_content, r'.policy_version)
        ≡ (r'.policy_content, r'.policy_version)
  outdated_old db p r row outdated k r' named row' =
      elim (Bool-cases (str_eq p.dataset_identifier k)) [
        | inl same ↦
            let v : r.policy_version ≡ r'.policy_version =
              ap (version_of ext)
                (sym row ∙ ap (table.row db) ((eq_iff p.dataset_identifier k).0 same) ∙ row') in
            let older : ltb r'.policy_version p.version ≡ false = ground (arith, outdated, v) in
            rw (same, older) refl
        | inr other ↦ rw other refl
      ]

  pub unknown_old :
      (db : table.Db) (p : Policy)
      → (str_eq p.dataset_identifier "" ≡ true) ⊎ (table.row db p.dataset_identifier ≡ none)
      → (k : String) (r : Row) → str_eq k "" ≡ false
      → table.row db k ≡ some r
      → newer k (some p) (r.policy_content, r.policy_version) ≡ (r.policy_content, r.policy_version)
  unknown_old db p why k r named row = elim (Bool-cases (str_eq p.dataset_identifier k)) [
    | inl same ↦
        let e = (eq_iff p.dataset_identifier k).0 same in
        elim why [
          | inl unnamed ↦ absurd (true-ne-false (sym unnamed ∙ ap (λ j. str_eq j "") e ∙ named))
          | inr gone ↦ absurd (none-ne-some r (sym gone ∙ ap (table.row db) e ∙ row))
        ]
    | inr other ↦ rw other refl
  ]
