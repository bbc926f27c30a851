-- ===== src/Store/Rows.antt =====
-- The rows of app/database.py. An amount is a positive integer of minor units, a time a number
-- of seconds, a uuid and a serial key a number.
use coffee_cloud_mvp.Base.{ℕ, Option, String, Json}
use coffee_cloud_mvp.PaymentState.{PaymentStatus, RefundStatus}
use coffee_cloud_mvp.ProductionState.Orders.{OrderStatus}

-- `sales_order.payment_status`: the two values of its own, and those of a payment.
pub data OrderPayment : Type 0 where
  not_required not_started : OrderPayment
  as_payment : PaymentStatus → OrderPayment

pub data PaymentMode : Type 0 where
  test_free online : PaymentMode

pub record Order : Type 0 where
  pub id : ℕ
  pub order_no : String
  pub terminal_id : ℕ
  pub tenant_id : Option ℕ
  pub access_token_hash : String
  pub status : OrderStatus
  pub payment_mode : PaymentMode
  pub payment_status : OrderPayment
  pub paid_payment_id : Option ℕ
  pub payment_account_id : Option ℕ
  pub currency : String
  pub total_amount_minor : ℕ
  pub recipe_id : String
  pub recipe_version : String
  pub product_name : String
  pub product_snapshot : Json
  pub failure_code : Option String
  pub failure_message : Option String
  pub created_at : ℕ
  pub updated_at : ℕ
  pub started_at : Option ℕ
  pub completed_at : Option ℕ
  pub cancelled_at : Option ℕ

pub record Payment : Type 0 where
  pub id : ℕ
  pub order_id : ℕ
  pub provider : String
  pub merchant_payment_no : String
  pub provider_trade_no : Option String
  pub payment_account_id : Option ℕ
  pub idempotency_key : String
  pub request_digest : String
  pub status : PaymentStatus
  pub revision : ℕ
  pub amount_minor : ℕ
  pub currency : String
  pub subject : String
  pub qr_code : Option String
  pub provider_response : Option Json
  pub next_reconcile_at : Option ℕ
  pub created_at : ℕ
  pub updated_at : ℕ
  pub paid_at : Option ℕ
  pub closed_at : Option ℕ

pub record Refund : Type 0 where
  pub id : ℕ
  pub payment_id : ℕ
  pub provider : String
  pub merchant_refund_no : String
  pub idempotency_key : String
  pub request_digest : String
  pub status : RefundStatus
  pub revision : ℕ
  pub amount_minor : ℕ
  pub reason : String
  pub provider_response : Option Json
  pub attempt_count : ℕ
  pub next_attempt_at : Option ℕ
  pub created_at : ℕ
  pub updated_at : ℕ
  pub completed_at : Option ℕ

-- `payment_event.event_id`: `created`, `transition:n` and `late-paid:n`.
pub data EventId : Type 0 where
  created : EventId
  transition late_paid : ℕ → EventId

pub record PaymentEvent : Type 0 where
  pub payment_id : ℕ
  pub event_id : EventId
  pub event_type : String
  pub actor : String
  pub payload_json : Json

pub record InboxRow : Type 0 where
  pub provider : String
  pub provider_event_id : String
  pub payment_id : ℕ
  pub payload_digest : String
  pub processed_at : ℕ

pub record OutboxRow : Type 0 where
  pub id : ℕ
  pub event_type : String
  pub aggregate_type : String
  pub aggregate_id : String
  pub payment_id : ℕ  -- payload_json.paymentId
  pub order_id : ℕ  -- payload_json.orderId
  pub terminal_id : ℕ  -- payload_json.terminalId
  pub idempotency_key : String

pub record OrderTransition : Type 0 where
  pub order_id : ℕ
  pub revision : ℕ
  pub from_status : Option OrderStatus
  pub to_status : OrderStatus
  pub actor : String
  pub reason : Option String
  pub payload_json : Option Json
