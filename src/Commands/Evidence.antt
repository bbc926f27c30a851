-- ===== src/Commands/Evidence.antt =====
-- A command that a gateway has claimed may be at the broker: the evidence that the claim of
-- app/repositories/commands.py leaves of it.
use coffee_cloud_mvp.Base.{
  ℕ, ◌≡◌, refl, true, false, Bool, ◌&&◌, Option, none, some, List, [], ◌∷◌, String, Bool-cases,
  Option-cases, inl, inr, ◌==◌, nat_eq, subst, sym, ap, ◌∙◌, All, if◌then◌else◌, nat_beq,
}
use coffee_cloud_mvp.Base.Rows.{some-inj, find-update, find_id-update_self, find_id-update_absent}
use coffee_cloud_mvp.CommandState.{command_status_eq}
use coffee_cloud_mvp.ProductionState.Jobs.{job_status_eq}
use coffee_cloud_mvp.Store.{
  Db, Command, CommandOutbox, ◌>>◌, modify, gets, Ensures, done, Ensures-bind, Ensures-gets,
  Ensures-modify, Ensures-weaken,
}
use coffee_cloud_mvp.CommandRepository.{outbox_id, find_command, outbox_for_command}
use coffee_cloud_mvp.CommandRepository.Outbox.{
  find_outbox, set_outbox, is_claimable, is_deliverable, leased, lease_outbox, claim_locked,
  claim_one, claim_all, claim_outbox, claim_candidates, with_claimed,
}
use coffee_cloud_mvp.Commands.Service.{claim}
use coffee_cloud_mvp.Production.Expiry.{is_claimed}

-- The outbox row of a command shows that a gateway had it.
abbrev pub Sent : ℕ → Db → Type 0
Sent id db =
    (o : CommandOutbox) × (outbox_for_command id db ≡ some o) × (is_claimed (some o) ≡ true)

-- A write to an outbox row that keeps its command and leaves it claimed.
set_outbox-Sent :
    (id k : ℕ) (f : CommandOutbox → CommandOutbox) (db : Db)
    → ((o : CommandOutbox) → (f o).command_id ≡ o.command_id)
    → ((o : CommandOutbox) → is_claimed (some (f o)) ≡ true)
    → Sent id db
    → Sent id (set_outbox k f db)
set_outbox-Sent id k f db keeps claimed (o, found, was) = (
  if nat_beq o.id k then f o else o,
  find-update outbox_id (λ x. x.command_id == id) k f (λ x. ap (λ c. c == id) (keeps x))
      db.command_outbox o found,
  elim (Bool-cases (nat_beq o.id k)) [ inl own ↦ rw own (claimed o) | inr other ↦ rw other was ],
)

-- The unique columns of `command_outbox` agree: the row of an id is the row of its command.
abbrev pub Keyed : Db → Type 0
Keyed db =
    (k : ℕ) (o : CommandOutbox)
    → find_outbox k db ≡ some o
    → outbox_for_command o.command_id db ≡ some o

-- What no transaction undoes: the keys, and the evidence of a command.
pub record Lasting (db db' : Db) : Type 0 where
  pub keyed : Keyed db → Keyed db'
  pub sent : (id : ℕ) → Sent id db → Sent id db'

pub Lasting-refl : (db : Db) → Lasting db db
Lasting-refl db = record { keyed = λ k. k; sent = λ id s. s }

pub Lasting-trans : (a b c : Db) → Lasting a b → Lasting b c → Lasting a c
Lasting-trans a b c h k = record {
  keyed = λ x. k.keyed (h.keyed x);
  sent = λ id s. k.sent id (h.sent id s);
}

set_outbox-Keyed :
    (k : ℕ) (f : CommandOutbox → CommandOutbox) (db : Db)
    → ((o : CommandOutbox) → ((f o).id ≡ o.id) × ((f o).command_id ≡ o.command_id))
    → Keyed db
    → Keyed (set_outbox k f db)
set_outbox-Keyed k f db keeps keyed j r found = elim (Option-cases (find_outbox j db)) [
  | inl absent ↦
      cc (found, find_id-update_absent outbox_id f (λ o. (keeps o).0) j k db.command_outbox absent)
  | inr (o, at) ↦
      let here =
        find-update outbox_id (λ x. nat_beq x.id j) k f (λ x. ap (λ c. nat_beq c j) (keeps x).0)
          db.command_outbox o at in
      let row : (if nat_beq o.id k then f o else o) ≡ r = some-inj (sym here ∙ found) in
      let own : (if nat_beq o.id k then f o else o).command_id ≡ o.command_id =
        same_command (nat_beq o.id k) o in
      subst (λ x. outbox_for_command x.command_id (set_outbox k f db) ≡ some x) row
        (subst
          (λ c. outbox_for_command c (set_outbox k f db) ≡ some (if nat_beq o.id k then f o else o))
          (sym own)
          (find-update outbox_id (λ x. x.command_id == o.command_id) k f
            (λ x. ap (λ c. c == o.command_id) (keeps x).1) db.command_outbox o (keyed j o at)))
]
  where
    same_command : (b : Bool) (o : CommandOutbox) → (if b then f o else o).command_id ≡ o.command_id
    same_command true o = (keeps o).1
    same_command false o = refl

-- The three writes of a gateway's reports.
abbrev pub IsReport : (CommandOutbox → CommandOutbox) → Type 0
IsReport f =
    (o : CommandOutbox)
    → ((f o).id ≡ o.id) × ((f o).command_id ≡ o.command_id) × (is_claimed (some (f o)) ≡ true)

pub set_outbox-Lasting :
    (k : ℕ) (f : CommandOutbox → CommandOutbox) (db : Db)
    → IsReport f
    → Lasting db (set_outbox k f db)
set_outbox-Lasting k f db report = record {
  keyed = set_outbox-Keyed k f db (λ o. ((report o).0, (report o).1));
  sent = λ id. set_outbox-Sent id k f db (λ o. (report o).1) (λ o. (report o).2);
}

-- What a claim leaves for a candidate: the row that it leased is evidence of its command.
abbrev Leased : Db → Option CommandOutbox → Db → Type 0
Leased db none db' = Lasting db db'
Leased db (some r) db' = Lasting db db' × Sent r.command_id db'

module _ (free : ℕ → Bool) (gateway : String) (lease : ℕ) where
  leased_row :
      (id : ℕ) (outbox : CommandOutbox) (db : Db)
      → Keyed db
      → find_outbox id db ≡ some outbox
      → Ensures
          (Leased db)
          ((modify (set_outbox id (leased gateway lease db.clock)) >> gets (find_outbox id)) db)
  leased_row id outbox db keyed found =
      let f = leased gateway lease db.clock in
      let here = find_id-update_self outbox_id f (λ o. refl) id db.command_outbox outbox found in
      let lasts = set_outbox-Lasting id f db (λ o. (refl, refl, refl)) in
      Ensures-modify _ _ db
        (rw here (done (lasts, (f outbox, lasts.keyed keyed id (f outbox) here, refl))))

  lease_outbox-Leased :
      (id : ℕ) (outbox : Option CommandOutbox) (db : Db)
      → Keyed db
      → find_outbox id db ≡ outbox
      → Ensures (Leased db) (lease_outbox free gateway lease id outbox db)
  unfolding lease_outbox
  lease_outbox-Leased id none db keyed found = done (Lasting-refl db)
  lease_outbox-Leased id (some outbox) db keyed found =
      Ensures-gets _ _ db (elim (Bool-cases (free id && is_claimable outbox db.clock)) [
        | inl claims ↦ rw claims (leased_row id outbox db keyed found)
        | inr held ↦ rw held (done (Lasting-refl db))
      ])

  claim_locked-Leased :
      (id : ℕ) (command : Option Command) (db : Db)
      → Keyed db
      → Ensures (Leased db) (claim_locked free gateway lease id command db)
  unfolding claim_locked
  claim_locked-Leased id none db keyed = done (Lasting-refl db)
  claim_locked-Leased id (some command) db keyed =
      Ensures-gets _ _ db (elim (Bool-cases (free command.id && is_deliverable command db.clock)) [
        | inl claims ↦
            rw claims
              (Ensures-gets _ _ db (lease_outbox-Leased id (find_outbox id db) db keyed refl))
        | inr held ↦ rw held (done (Lasting-refl db))
      ])

  module _ (wait : ℕ → Db → Db) (others : (k : ℕ) (d : Db) → Lasting d (wait k d)) where
    claim_one-Leased :
        (candidate : CommandOutbox) (db : Db)
        → Keyed db
        → Ensures (Leased db) (claim_one wait free gateway lease candidate db)
    unfolding claim_one
    claim_one-Leased candidate db keyed =
        let waited = others candidate.id db in
        let db1 = wait candidate.id db in
        Ensures-modify _ _ db (
          Ensures-gets _ _ db1 (
            Ensures-weaken
              (claim_locked-Leased candidate.id (find_command candidate.command_id db1) db1
                (waited.keyed keyed))
              λ row db' l. since db db1 db' row waited l))
      where
        since :
            (a b c : Db) (row : Option CommandOutbox)
            → Lasting a b
            → Leased b row c
            → Leased a row c
        since a b c none h l = Lasting-trans a b c h l
        since a b c (some r) h l = (Lasting-trans a b c h l.0, l.1)

    All-Sent :
        (rows : List CommandOutbox) (a b : Db)
        → Lasting a b
        → All (λ r. Sent r.command_id a) rows
        → All (λ r. Sent r.command_id b) rows
    All-Sent [] a b l h = tt
    All-Sent (r ∷ rs) a b l h = (l.sent r.command_id h.0, All-Sent rs a b l h.1)

    -- Every row of a batch is evidence of its command.
    Batch : Db → List CommandOutbox → Db → Type 0
    Batch db rows db' = Lasting db db' × All (λ r. Sent r.command_id db') rows

    lasts : (db : Db) (row : Option CommandOutbox) (db1 : Db) → Leased db row db1 → Lasting db db1
    lasts db none db1 l = l
    lasts db (some r) db1 l = l.0

    joined :
        (db : Db) (row : Option CommandOutbox) (db1 db2 : Db) (rows : List CommandOutbox)
        → Leased db row db1
        → Batch db1 rows db2
        → Batch db (with_claimed row rows) db2
    unfolding Batch
    joined db none db1 db2 rows l b = (Lasting-trans db db1 db2 l b.0, b.1)
    joined db (some r) db1 db2 rows l b =
        (Lasting-trans db db1 db2 l.0 b.0, (b.0.sent r.command_id l.1, b.1))

    claim_all-Batch :
        (candidates : List CommandOutbox) (db : Db)
        → Keyed db
        → Ensures (Batch db) (claim_all wait free gateway lease candidates db)
    unfolding claim_all Batch
    claim_all-Batch [] db keyed = done (Lasting-refl db, tt)
    claim_all-Batch (candidate ∷ rest) db keyed =
        Ensures-bind _ _ db (claim_one-Leased candidate db keyed) λ row db1 l.
          Ensures-bind _ _ db1 (claim_all-Batch rest db1 ((lasts db row db1 l).keyed keyed))
            λ rows db2 b. done (joined db row db1 db2 rows l b)

    -- With outbox rows keyed by id and by command alike, and with lasting work of other
    -- transactions between the locks: if the claim of a gateway returns, the keys and the
    -- evidence of every command last, and the outbox row of every command in the batch shows
    -- that a gateway had it.
    pub claim-Batch :
        (limit : ℕ) (db : Db)
        → Keyed db
        → Ensures
            (λ rows db'. Lasting db db' × All (λ r. Sent r.command_id db') rows)
            (claim wait free lease gateway limit db)
    unfolding claim claim_outbox Batch
    claim-Batch limit db keyed =
        Ensures-gets _ _ db (claim_all-Batch (claim_candidates limit db) db keyed)
