-- ===== src/Commands/Expiry.antt =====
-- Gateways, app/services/commands.py, and the expiry scan of app/services/production.py together:
-- the refunds of a command that a gateway claimed.
use coffee_cloud_mvp.Base.{
  ℕ, ◌≡◌, refl, true, Bool, Option, none, some, List, [], ◌∷◌, String, contains, Bool-cases, inl,
  inr, ◌==◌, nat_eq, All, find, subst, sym, ◌∙◌, ◌||◌, is_some,
}
use coffee_cloud_mvp.Base.Rows.{some-inj, find_id-key}
use coffee_cloud_mvp.CommandState.{CommandStatus, command_status_eq}
use coffee_cloud_mvp.ProductionState.Jobs.{JobStatus, job_status_eq}
use coffee_cloud_mvp.Store.{
  Db, Order, Job, Command, CommandOutbox, Host, ok, Ensures, done, Ensures-bind, Ensures-gets,
  Ensures-modify, Ensures-ok, Ensures-weaken,
}
use coffee_cloud_mvp.CommandRepository.{outbox_for_command}
use coffee_cloud_mvp.Commands.Service.{PublishReply, claim, published, retry}
use coffee_cloud_mvp.Commands.Evidence.{
  Sent, Keyed, Lasting, Lasting-refl, Lasting-trans, claim-Batch,
}
use coffee_cloud_mvp.Commands.Reports.{published-Lasting, retry-Lasting}
use coffee_cloud_mvp.CommandRepository.{command_id, find_command}
use coffee_cloud_mvp.Production.Expiry.{
  may_be_sent, verdict_of, not_due, expire_job, expire_due, expire_current,
  expire_order_for_command,
}
use coffee_cloud_mvp.Production.Money.{
  withdraw-Ensures, hold_sent-Ensures, transition_command-Ensures,
}

-- What gateways and other transactions do: claims, publish reports, retries, and commits that
-- keep the evidence.
pub data GatewayPath (host : Host) (a : Db) : Db → Type 0 where
  here : GatewayPath host a a
  commits : {b c : Db} → GatewayPath host a b → Lasting b c → GatewayPath host a c
  claims :
      {b c : Db} (wait : ℕ → Db → Db) (free : ℕ → Bool) (lease : ℕ) (gateway : String) (limit : ℕ)
      (rows : List CommandOutbox)
      → GatewayPath host a b
      → ((k : ℕ) (d : Db) → Lasting d (wait k d))
      → claim wait free lease gateway limit b ≡ ok (rows, c)
      → GatewayPath host a c
  publishes :
      {b c : Db} (wait : Db → Db) (id : ℕ) (gateway : String) (reply : PublishReply)
      → GatewayPath host a b
      → ((d : Db) → Lasting d (wait d))
      → published wait id gateway b ≡ ok (reply, c)
      → GatewayPath host a c
  retries :
      {b c : Db} (wait : Db → Db) (id : ℕ) (gateway error : String) (reply : PublishReply)
      → GatewayPath host a b
      → ((d : Db) → Lasting d (wait d))
      → retry host wait id gateway error b ≡ ok (reply, c)
      → GatewayPath host a c

GatewayPath-Lasting : {host : Host} {a c : Db} → GatewayPath host a c → Keyed a → Lasting a c
GatewayPath-Lasting {a} GatewayPath.here keyed = Lasting-refl a
GatewayPath-Lasting {a} {c} (GatewayPath.commits {b} p l) keyed =
    Lasting-trans a b c (GatewayPath-Lasting p keyed) l
GatewayPath-Lasting {a} {c} (GatewayPath.claims {b} wait free lease gateway limit rows p others e)
      keyed =
    let before = GatewayPath-Lasting p keyed in
    Lasting-trans a b c before
      (Ensures-ok rows c (claim-Batch free gateway lease wait others limit b (before.keyed keyed))
        e).0
GatewayPath-Lasting {a} {c} (GatewayPath.publishes {b} wait id gateway reply p others e) keyed =
    Lasting-trans a b c (GatewayPath-Lasting p keyed)
      (Ensures-ok reply c (published-Lasting wait others id gateway b) e)
GatewayPath-Lasting {host} {a} {c} (GatewayPath.retries {b} wait id gateway error reply p others e)
      keyed =
    Lasting-trans a b c (GatewayPath-Lasting p keyed)
      (Ensures-ok reply c (retry-Lasting wait others host id gateway error b) e)

All-find {ℓ κ} :
    {A : Type ℓ} (P : A → Type κ) (test : A → Bool) (xs : List A) (x : A)
    → All P xs
    → find test xs ≡ some x
    → P x
All-find P test [] x h e = cc
All-find P test (y ∷ ys) x h e = elim (Bool-cases (test y)) [
  | inl hit ↦ subst P (some-inj (rw hit at e)) h.0
  | inr miss ↦ All-find P test ys x h.1 (rw miss at e)
]

-- The refunds are the same.
abbrev SameRefunds : {A : Type 0} → Db → A → Db → Type 0
SameRefunds db a db' = db'.refunds ≡ db.refunds

module _ (host : Host) where
  expire_job-SameRefunds :
      (order : Option Order) (job : Option Job) (command : Command) (db : Db)
      → Ensures (SameRefunds db) (expire_job host order job true command db)
  unfolding expire_job
  expire_job-SameRefunds none job command db = done refl
  expire_job-SameRefunds (some order) none command db = done refl
  expire_job-SameRefunds (some order) (some job) command db =
      elim (Bool-cases (contains job.status (JobStatus.dispatched ∷ JobStatus.queued ∷ []))) [
        | inr alone ↦ rw alone (done refl)
        | inl waits ↦
            rw waits (Ensures-weaken (hold_sent-Ensures order job command db) λ u db' same. same.1)
      ]

  sent_due-SameRefunds :
      (order : Option Order) (job : Option Job) (command : Command) (db : Db)
      → may_be_sent (outbox_for_command command.id db) command ≡ true
      → Ensures (SameRefunds db) (expire_due host order job command db)
  unfolding expire_due
  sent_due-SameRefunds order job command db sent = Ensures-gets _ _ db (
      Ensures-bind _ _ db (withdraw-Ensures (outbox_for_command command.id db) db) λ u db1 same1.
        rw sent (
          Ensures-bind _ _ db1 (expire_job-SameRefunds order job command db1) λ u2 db2 same2.
            Ensures-bind _ _ db2
              (transition_command-Ensures command (verdict_of true) _ _ _ true db2)
              λ c db3 same3. done (same3.1 ∙ same2 ∙ same1.1)))

  Sent-may_be_sent :
      (command : Command) (db : Db)
      → Sent command.id db
      → may_be_sent (outbox_for_command command.id db) command ≡ true
  Sent-may_be_sent command db (o, found, claimed) =
      rw found
        (cc (claimed, true_or (is_some command.published_at || is_some command.delivered_at)))
    where
      true_or : (b : Bool) → (true || b) ≡ true
      true_or b = refl

  current-SameRefunds :
      (order : Option Order) (job : Option Job) (id : ℕ) (current : Option Command) (db : Db)
      → find_command id db ≡ current
      → Sent id db
      → Ensures (SameRefunds db) (expire_current host order job current db)
  unfolding expire_current
  current-SameRefunds order job id none db found sent = done refl
  current-SameRefunds order job id (some command) db found sent =
      let own = find_id-key command_id id db.commands command found in
      elim (Bool-cases (command.status == CommandStatus.created)) [
        | inr moved ↦ rw moved (done refl)
        | inl waiting ↦ rw waiting (
            Ensures-gets _ _ db (elim (Bool-cases (not_due command.expires_at db.clock)) [
              | inl early ↦ rw early (done refl)
              | inr due ↦ rw due (
                  sent_due-SameRefunds order job command db
                    (Sent-may_be_sent command db (subst (λ k. Sent k db) (sym own) sent)))
            ]))
      ]

  -- A gateway claims a batch, with any lasting work of other transactions between its locks;
  -- then claims, publish reports and retries of any gateway and lasting commits follow, in any
  -- order, and then the expiry scan of the command of a claimed row runs: if this scan returns,
  -- the refunds are those found under its locks, so it does not refund a command that a gateway
  -- has had. The outbox rows must be keyed by id and by command alike.
  pub claimed-SameRefunds :
      (wait : ℕ → Db → Db) (free : ℕ → Bool) (lease : ℕ) (gateway : String) (limit k : ℕ)
      (rows : List CommandOutbox) (row : CommandOutbox) (before claimed later : Db)
      (wait_expiry : Db → Db)
      → Keyed before
      → ((j : ℕ) (d : Db) → Lasting d (wait j d))
      → claim wait free lease gateway limit before ≡ ok (rows, claimed)
      → find (λ r. r.id == k) rows ≡ some row
      → GatewayPath host claimed later
      → Lasting later (wait_expiry later)
      → Ensures
          (λ v after. after.refunds ≡ (wait_expiry later).refunds)
          (expire_order_for_command host wait_expiry row.command_id later)
  unfolding expire_order_for_command
  claimed-SameRefunds wait free lease gateway limit k rows row before claimed later wait_expiry
        keyed others ran member path committed =
      let id = row.command_id in
      let batch =
        Ensures-ok rows claimed (claim-Batch free gateway lease wait others limit before keyed)
          ran in
      let sent =
        All-find (λ r. Sent r.command_id claimed) (λ r. r.id == k) rows row batch.1 member in
      let lasting = GatewayPath-Lasting path (batch.0.keyed keyed) in
      let now = wait_expiry later in
      Ensures-gets _ _ later (
        Ensures-modify _ _ later (
          Ensures-gets _ _ now (
            Ensures-gets _ _ now (
              Ensures-gets _ _ now (
                current-SameRefunds _ _ id (find_command id now) now refl
                  (committed.sent id (lasting.sent id sent)))))))
