-- ===== src/Store/Tables.antt =====
-- The tables of one database, with what a transaction reads beside them: the time, and how
-- many random uuids were drawn.
use coffee_cloud_mvp.Base.{ℕ, List}
use coffee_cloud_mvp.Store.Rows.{
  Order, Payment, Refund, PaymentEvent, InboxRow, OutboxRow, OrderTransition,
}
use coffee_cloud_mvp.Store.Production.{Job, Command, CommandOutbox, CommandTransition}
use coffee_cloud_mvp.Store.Devices.{Terminal, DispatchRequest, PickupSlot}

pub record Db : Type 0 where
  pub clock : ℕ
  pub drawn : ℕ
  pub orders : List Order
  pub payments : List Payment
  pub refunds : List Refund
  pub payment_events : List PaymentEvent
  pub order_transitions : List OrderTransition
  pub inbox : List InboxRow
  pub outbox : List OutboxRow
  pub jobs : List Job
  pub commands : List Command
  pub command_outbox : List CommandOutbox
  pub command_transitions : List CommandTransition
  pub terminals : List Terminal
  pub pickup_slots : List PickupSlot
  pub dispatch_requests : List DispatchRequest
