-- ===== src/Production/Frames.antt =====
-- What leaves the production rows alone: a refund intent of app/services/refund_intents.py
-- keeps jobs, commands and the statuses of orders.
use coffee_cloud_mvp.Base.{
  ℕ, ◌≡◌, refl, Option, none, some, String, Json, Bool-cases, inl, inr, ◌==◌, nat_eq, nat_beq_iff,
  subst, sym, ◌∙◌,
}
use coffee_cloud_mvp.Base.Rows.{find_id-update_self, find_id-update_ne}
use coffee_cloud_mvp.PaymentState.{PaymentStatus, decide_payment_transition}
use coffee_cloud_mvp.Store.{
  Db, Order, Payment, Refund, Host, Ensures, done, raised, Ensures-bind, Ensures-gets,
  Ensures-modify, Ensures-guard, or_raise-Ensures, Ensures-or_raise,
}
use coffee_cloud_mvp.OrderRepository.{order_id, find_order, set_orders}
use coffee_cloud_mvp.PaymentRepository.{
  find_payment, find_refund_idempotent, insert_refund, transition_payment_row,
}
use coffee_cloud_mvp.Transitions.Payments.{transition_payment}
use coffee_cloud_mvp.Refunds.Intents.{
  is_refundable, is_primary, project_on, project_refunding, open_refund, replay_or_open,
  create_refund_intent, replay_or_ensure, ensure_refund, ensure_automatic_refund_intent,
}
use coffee_cloud_mvp.Ledger.Creation.{Ensures-draw}

-- Jobs and commands are the same, and orders have the same statuses.
abbrev pub Kept : {A : Type 0} → Db → A → Db → Type 0
Kept db a db' =
    (db'.jobs ≡ db.jobs)
    × (db'.commands ≡ db.commands)
    × ((j : ℕ) (o : Order)
        → find_order j db ≡ some o
        → (o' : Order) × (find_order j db' ≡ some o') × (o'.status ≡ o.status))

pub Kept-refl : {A : Type 0} (a : A) (db : Db) → Kept db a db
Kept-refl a db = (refl, refl, λ j o e. (o, e, refl))

pub Kept-trans :
    {A B : Type 0} (a : A) (b : B) (db db1 db2 : Db)
    → Kept db a db1
    → Kept db1 b db2
    → Kept db b db2
Kept-trans a b db db1 db2 h k = (
  k.0 ∙ h.0,
  k.1 ∙ h.1,
  λ j o e. let (o1, e1, s1) = h.2 j o e in let (o2, e2, s2) = k.2 j o1 e1 in (o2, e2, s2 ∙ s1),
)

-- An update of one order that keeps its key and its status.
pub set_orders-Kept :
    (id : ℕ) (f : Order → Order) (db : Db)
    → ((o : Order) → (f o).id ≡ o.id)
    → ((o : Order) → (f o).status ≡ o.status)
    → Kept {A = Unit {0}} db tt (set_orders id f db)
set_orders-Kept id f db keeps same = (refl, refl, λ j o e. at j o e)
  where
    at :
        (j : ℕ) (o : Order)
        → find_order j db ≡ some o
        → (o' : Order) × (find_order j (set_orders id f db) ≡ some o') × (o'.status ≡ o.status)
    at j o e = elim (Bool-cases (j == id)) [
      | inl own ↦
          let k = (nat_beq_iff j id).0 own in
          (
            f o,
            subst (λ k. find_order k (set_orders id f db) ≡ some (f o)) (sym k)
                (find_id-update_self order_id f keeps id db.orders o
                  (subst (λ k. find_order k db ≡ some o) k e)),
            same o,
          )
      | inr other ↦ (
        o,
        find_id-update_ne order_id f keeps j id db.orders (λ k. cc (other, (nat_beq_iff j id).1 k))
            ∙ e,
        refl,
      )
    ]

transition_payment-Kept :
    (payment : Payment) (target : PaymentStatus) (actor : String) (payload : Json) (db : Db)
    → Ensures (Kept db) (transition_payment payment target actor payload db)
unfolding transition_payment transition_payment_row
transition_payment-Kept payment target actor payload db =
    elim (Bool-cases (decide_payment_transition payment.status target).duplicate) [
      | inl same ↦ rw same (done (Kept-refl payment db))
      | inr moves ↦ elim (Bool-cases (decide_payment_transition payment.status target).allowed) [
        | inr refused ↦ rw (moves, refused) raised
        | inl allowed ↦
            rw (moves, allowed)
              (Ensures-bind {R = Kept db} _ _ db
                (Ensures-modify _ _ db
                  (Ensures-gets _ _ _ (or_raise-Ensures _ _ _ λ a e. Kept-refl a db)))
                λ p db' kept. done kept)
      ]
    ]

insert_refund-Kept :
    (id : ℕ) (payment : Payment) (number key digest : String) (amount : ℕ) (reason : String)
    (db : Db)
    → Ensures (Kept db) (insert_refund id payment number key digest amount reason db)
unfolding insert_refund
insert_refund-Kept id payment number key digest amount reason db = Ensures-gets _ _ db (
    Ensures-gets _ _ db (
      Ensures-guard _ _ _ db λ fresh.
        Ensures-guard _ _ _ db
          λ positive. Ensures-modify _ _ db (done (refl, refl, λ j o e. (o, e, refl)))))

project_on-Kept :
    (order : Option Order) (payment : Payment) (db : Db)
    → Ensures (Kept db) (project_on order payment db)
unfolding project_on
project_on-Kept none payment db = done (Kept-refl payment db)
project_on-Kept (some order) payment db =
    elim (Bool-cases (is_primary order.paid_payment_id payment.id)) [
      | inl primary ↦ rw primary (done (set_orders-Kept order.id _ db (λ o. refl) (λ o. refl)))
      | inr extra ↦ rw extra (done (Kept-refl payment db))
    ]

module _ (host : Host) where
  open_refund-Kept :
      (payment : Payment) (key reason : String) (amount : Option ℕ) (digest : Option String)
      (actor : String) (db : Db)
      → Ensures (Kept db) (open_refund host payment key reason amount digest actor db)
  unfolding open_refund project_refunding
  open_refund-Kept payment key reason amount digest actor db = Ensures-guard _ _ _ db λ refundable.
      Ensures-gets _ _ db (
        Ensures-guard _ _ _ db λ fits. Ensures-draw host _ db (
          Ensures-draw host _ _ (
            Ensures-bind _ _ _ (insert_refund-Kept _ payment _ key _ _ reason _) λ r db1 kept1.
              Ensures-bind _ _ db1
                (transition_payment-Kept payment PaymentStatus.refunding actor _ db1)
                λ moved db2 kept2.
                  Ensures-bind _ _ db2
                    (Ensures-gets _ _ db2
                      (project_on-Kept (find_order moved.0.order_id db2) moved.0 db2))
                    λ u db3 kept3. done (
                      Kept-trans r u db db1 db3 kept1
                        (Kept-trans moved u db1 db2 db3 kept2 kept3)))))

  create_refund_intent-Kept :
      (id : ℕ) (key reason : String) (amount : Option ℕ) (digest : Option String) (actor : String)
      (db : Db)
      → Ensures (Kept db) (create_refund_intent host id key reason amount digest actor db)
  unfolding create_refund_intent replay_or_open
  create_refund_intent-Kept id key reason amount digest actor db = Ensures-gets _ _ db (
      Ensures-or_raise _ _ _ db
        λ payment found. Ensures-gets _ _ db (opens payment (find_refund_idempotent id key db)))
    where
      opens :
          (payment : Payment) (existing : Option Refund)
          → Ensures
              (Kept db)
              (replay_or_open host existing payment key reason amount digest actor db)
      opens payment none = (open_refund-Kept payment key reason amount digest actor db)
      opens payment (some refund) = (Ensures-guard _ _ _ db λ same. done (Kept-refl payment db))

  replay_or_ensure-Kept :
      (existing : Option Refund) (payment : Payment) (remaining : ℕ) (key reason actor : String)
      (db : Db)
      → Ensures (Kept db) (replay_or_ensure host existing payment remaining key reason actor db)
  unfolding replay_or_ensure
  replay_or_ensure-Kept (some refund) payment remaining key reason actor db =
      done (Kept-refl payment db)
  replay_or_ensure-Kept none payment remaining key reason actor db =
      elim (Bool-cases (remaining == 0)) [
        | inl covered ↦ rw covered (done (Kept-refl payment db))
        | inr left ↦ rw left (
            Ensures-bind _ _ db
              (create_refund_intent-Kept payment.id key reason (some remaining) none actor db)
              λ i db' kept. done kept)
      ]

  ensure_refund-Kept :
      (found : Option Payment) (key reason actor : String) (db : Db)
      → Ensures (Kept db) (ensure_refund host found key reason actor db)
  unfolding ensure_refund
  ensure_refund-Kept none key reason actor db = done (Kept-refl tt db)
  ensure_refund-Kept (some payment) key reason actor db =
      elim (Bool-cases (is_refundable payment.status)) [
        | inr closed ↦ rw closed (done (Kept-refl payment db))
        | inl refundable ↦ rw refundable (
            Ensures-gets _ _ db
              (Ensures-gets _ _ db (replay_or_ensure-Kept _ payment _ key reason actor db)))
      ]

  pub ensure_automatic_refund_intent-Kept :
      (id : ℕ) (key reason actor : String) (db : Db)
      → Ensures (Kept db) (ensure_automatic_refund_intent host id key reason actor db)
  unfolding ensure_automatic_refund_intent
  ensure_automatic_refund_intent-Kept id key reason actor db =
      Ensures-gets _ _ db (ensure_refund-Kept (find_payment id db) key reason actor db)
