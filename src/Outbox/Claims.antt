-- ===== src/Outbox/Claims.antt =====
-- Several workers on one table, one statement after the other in any order (src/outbox/outbox.service.ts).
use facturify.Base.{
  ℕ, suc, ◌≤◌, ◌≡◌, ◌≢◌, refl, sym, subst, ◌∙◌, Bool, true, false, some, List, [], ◌∷◌, ◌==◌, inl,
  inr, Bool-cases, if◌then◌else◌, ltb, arith,
}
use facturify.Js.Text.{Text, text_eq}
use facturify.Js.Text.Laws.{eq_of_text_eq, text_eq_refl}
use facturify.Outbox.{EventUpdate}
use facturify.Outbox.Table.{
  OutboxEvent, waiting, processing, is_waiting, is_stale, set_back, has_id, is_claimable, claimed,
  updated, change, OutboxTable, OutboxLaws,
}
use facturify.Outbox.Rows.{IsRow, IsRow-change, IsRow-id, count-claimable, updated-id}
use facturify.Outbox.Batch.{release, claim, finish}

-- The statements of `processBatch` and `reschedule` that change the table.
pub data Statement : Type 0 where
  releases : ℕ → Statement
  claims : Text → ℕ → Statement
  updates : Text → ℕ → EventUpdate → Statement

module _ (T : OutboxTable) where
  open T use {Db}

  unfoldable pub execute : Statement → Db → Db
  unfolding release claim finish
  execute (releases stale) db = release T stale db
  execute (claims id now) db = (claim T id now db).1
  execute (updates id now u) db = finish T id now u db

  -- Whether the statement is a claim of the event that wins it.
  unfoldable pub wins : Text → Statement → Db → Bool
  unfolding text_eq claim
  wins id (claims other now) db = if text_eq id other then (claim T other now db).0 == 1 else false
  wins id _ db = false

  -- How many claims of an event win.
  unfoldable pub count_wins : Text → List Statement → Db → ℕ
  unfolding execute wins
  count_wins id [] db = 0
  count_wins id (s ∷ ss) db =
      let rest = count_wins id ss (execute s db) in if wins id s db then suc rest else rest

-- The statement is no update of the event, and sets back only locks from before a time.
abbrev pub Spares : Text → ℕ → Statement → Type 0
Spares id lock (releases stale) = stale ≤ lock
Spares id lock (claims other now) = Unit
Spares id lock (updates other now u) = other ≢ id

abbrev pub AllSpare : Text → ℕ → List Statement → Type 0
AllSpare id lock [] = Unit
AllSpare id lock (s ∷ ss) = Spares id lock s × AllSpare id lock ss

module _ (T : OutboxTable) (L : OutboxLaws T) where
  open T use {Db, rows}

  abbrev IsHeld : Text → OutboxEvent → ℕ → Db → Type 0
  IsHeld id e lock db = IsRow id e (rows db) × (e.status ≡ processing) × (e.locked_at ≡ some lock)

  pub claim-IsRow :
      (id other : Text) (now : ℕ) (e : OutboxEvent) (db : Db)
      → IsRow id e (rows db)
      → IsRow id (change (is_claimable other) (claimed now) e) (rows (claim T other now db).1)
  unfolding claim
  claim-IsRow id other now e db is =
      rw (L.update_many_rows (is_claimable other) (claimed now) db (λ f. refl))
        (IsRow-change id (is_claimable other) (claimed now) e (rows db) (λ f. refl) is)

  claim-count :
      (id : Text) (now : ℕ) (e : OutboxEvent) (db : Db)
      → IsRow id e (rows db)
      → (claim T id now db).0 ≡ (if is_waiting e.status then 1 else 0)
  unfolding claim
  claim-count id now e db is =
      L.update_many_count (is_claimable id) (claimed now) db ∙ count-claimable id e (rows db) is

  pub claim-waiting :
      (id : Text) (now : ℕ) (e : OutboxEvent) (db : Db)
      → IsRow id e (rows db)
      → e.status ≡ waiting
      → ((claim T id now db).0 ≡ 1) × IsRow id (claimed now e) (rows (claim T id now db).1)
  claim-waiting id now e db is due =
      let same : text_eq e.id id ≡ true = rw (IsRow-id id e (rows db) is) (text_eq_refl id) in
      let claimable : is_claimable id e ≡ true = rw (same, due) refl in
      let after = claim-IsRow id id now e db is in
      (rw due at (claim-count id now e db is), rw claimable at after)

  execute-IsRow :
      (id : Text) (e : OutboxEvent) (lock : ℕ) (s : Statement) (db : Db)
      → IsHeld id e lock db
      → Spares id lock s
      → IsRow id e (rows (execute T s db))
  unfolding execute release finish
  execute-IsRow id e lock (releases stale) db (is, held, locked) fresh =
      let late : ltb lock stale ≡ false = ground (arith, fresh) in
      let miss : is_stale stale e ≡ false = rw (held, locked, late) refl in
      let after = IsRow-change id (is_stale stale) set_back e (rows db) (λ f. refl) is in
      rw (L.update_many_rows (is_stale stale) set_back db (λ f. refl)) (rw miss at after)
  execute-IsRow id e lock (claims other now) db (is, held, locked) spares =
      elim (Bool-cases (text_eq e.id other)) [
        | inl same ↦
            let lost : is_claimable other e ≡ false = rw (same, held) refl in
            rw lost at (claim-IsRow id other now e db is)
        | inr apart ↦
            let lost : is_claimable other e ≡ false = rw apart refl in
            rw lost at (claim-IsRow id other now e db is)
      ]
  execute-IsRow id e lock (updates other now u) db (is, held, locked) apart =
      let after =
        IsRow-change id (has_id other) (updated now u) e (rows db) (updated-id now u) is in
      let miss : text_eq e.id other ≡ false = elim (Bool-cases (text_eq e.id other)) [
        | inr differs ↦ differs
        | inl same ↦
            absurd (apart (sym (eq_of_text_eq e.id other same) ∙ IsRow-id id e (rows db) is))
      ] in
      rw (L.update_rows other (updated now u) db (updated-id now u)) (rw miss at after)

  wins-held :
      (id : Text) (e : OutboxEvent) (lock : ℕ) (s : Statement) (db : Db)
      → IsHeld id e lock db
      → wins T id s db ≡ false
  unfolding wins
  wins-held id e lock (releases stale) db h = refl
  wins-held id e lock (updates other now u) db h = refl
  wins-held id e lock (claims other now) db (is, held, locked) =
      elim (Bool-cases (text_eq id other)) [
        | inr apart ↦ rw apart refl
        | inl same ↦
            let none_claimed : (claim T id now db).0 ≡ 0 =
              rw held at (claim-count id now e db is) in
            let none_other : (claim T other now db).0 ≡ 0 =
              subst (λ o. (claim T o now db).0 ≡ 0) (eq_of_text_eq id other same) none_claimed in
            rw (same, none_other) refl
      ]

  count_wins-held :
      (id : Text) (e : OutboxEvent) (lock : ℕ) (ss : List Statement) (db : Db)
      → IsHeld id e lock db
      → AllSpare id lock ss
      → count_wins T id ss db ≡ 0
  unfolding count_wins
  count_wins-held id e lock [] db held spare = refl
  count_wins-held id e lock (s ∷ ss) db (is, status, locked) (spares, later) =
      let kept = execute-IsRow id e lock s db (is, status, locked) spares in
      rw (wins-held id e lock s db (is, status, locked))
        (count_wins-held id e lock ss (execute T s db) (kept, status, locked) later)

  -- Of the claims of a waiting event by any workers, exactly the first wins: none of the others does, whatever
  -- statements run in between, as long as none of them updates the event or sets back locks as old as its own. So
  -- no two workers publish an event at once. Assumed is that the event is the one row of its identifier, and the
  -- documented behaviour of the database, which runs each statement at once.
  pub count_wins-once :
      (id : Text) (e : OutboxEvent) (now : ℕ) (ss : List Statement) (db : Db)
      → IsRow id e (rows db)
      → e.status ≡ waiting
      → AllSpare id now ss
      → count_wins T id (claims id now ∷ ss) db ≡ 1
  unfolding count_wins execute wins
  count_wins-once id e now ss db is due spare =
      let (one, held) = claim-waiting id now e db is due in
      let rest =
        count_wins-held id (claimed now e) now ss (claim T id now db).1 (held, refl, refl) spare in
      rw (text_eq_refl id, one, rest) refl
