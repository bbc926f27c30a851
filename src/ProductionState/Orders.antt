-- ===== src/ProductionState/Orders.antt =====
-- app/production_state.py: the statuses of an order and `ORDER_TRANSITIONS`.
use coffee_cloud_mvp.Base.{Eq, eq_test, eq_test_iff, contains, ◌==◌, Bool, ◌||◌, List, [], ◌∷◌}

pub data OrderStatus : Type 0 where
  created awaiting_payment paid queued dispatched accepted making hold : OrderStatus
  ready failed cancelled expired refunded : OrderStatus

unfoldable pub OrderStatus-discrete : Discrete OrderStatus
OrderStatus-discrete = hlevel

instance abbrev pub order_status_eq : Eq OrderStatus
order_status_eq = record {
  beq = eq_test OrderStatus-discrete;
  beq_iff = eq_test_iff OrderStatus-discrete;
}

abbrev pub final_orders : List OrderStatus
final_orders =
    OrderStatus.ready ∷ OrderStatus.failed ∷ OrderStatus.cancelled ∷ OrderStatus.expired
    ∷ OrderStatus.refunded ∷ []

-- `ORDER_TRANSITIONS.get(current, set())`
order_transitions : OrderStatus → List OrderStatus
order_transitions OrderStatus.created =
    OrderStatus.awaiting_payment ∷ OrderStatus.paid ∷ OrderStatus.queued ∷ OrderStatus.cancelled
    ∷ OrderStatus.expired ∷ []
order_transitions OrderStatus.awaiting_payment =
    OrderStatus.paid ∷ OrderStatus.cancelled ∷ OrderStatus.expired ∷ []
order_transitions OrderStatus.paid =
    OrderStatus.queued ∷ OrderStatus.cancelled ∷ OrderStatus.hold ∷ []
order_transitions OrderStatus.queued =
    OrderStatus.dispatched ∷ OrderStatus.cancelled ∷ OrderStatus.expired ∷ OrderStatus.hold ∷ []
order_transitions OrderStatus.dispatched =
    OrderStatus.accepted ∷ OrderStatus.making ∷ OrderStatus.ready ∷ OrderStatus.failed
    ∷ OrderStatus.cancelled ∷ OrderStatus.expired ∷ OrderStatus.hold ∷ []
order_transitions OrderStatus.accepted =
    OrderStatus.making ∷ OrderStatus.ready ∷ OrderStatus.failed ∷ OrderStatus.cancelled
    ∷ OrderStatus.hold ∷ []
order_transitions OrderStatus.making =
    OrderStatus.ready ∷ OrderStatus.failed ∷ OrderStatus.cancelled ∷ OrderStatus.hold ∷ []
order_transitions OrderStatus.hold =
    OrderStatus.ready ∷ OrderStatus.failed ∷ OrderStatus.cancelled ∷ []
order_transitions OrderStatus.failed = OrderStatus.refunded ∷ []
order_transitions _ = []

unfoldable pub order_transition_allowed : OrderStatus → OrderStatus → Bool
unfolding order_transitions OrderStatus-discrete
order_transition_allowed current target =
    current == target || contains target (order_transitions current)
