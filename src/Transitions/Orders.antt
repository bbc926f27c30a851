-- ===== src/Transitions/Orders.antt =====
-- app/services/order_state.py: `transition_order`, which leaves an illegal request undone.
use coffee_cloud_mvp.Base.{
  ◌&&◌, not, Option, some, [], ◌∷◌, String, Json, if◌then◌else◌, ◌==◌, contains, is_some,
}
use coffee_cloud_mvp.ProductionState.Orders.{
  OrderStatus, order_status_eq, OrderStatus-discrete, order_transition_allowed,
}
use coffee_cloud_mvp.Store.{Order, Action, ◌>>=◌, ◌>>◌, pure, gets, now}
use coffee_cloud_mvp.OrderRepository.{
  next_transition_revision, update_transition_state, insert_transition,
}

-- The statements after the two early returns.
unfoldable pub apply_transition :
    Order → OrderStatus → String → Option String → Option Json → Action Order
unfolding OrderStatus-discrete
apply_transition order target actor reason payload = do
  revision ← gets (λ db. next_transition_revision order.id db.order_transitions)
  now_at ← now
  let started_at =
      if target == OrderStatus.making && not (is_some order.started_at)
      then some now_at
      else order.started_at
  let completed_at =
      if contains target (OrderStatus.ready ∷ OrderStatus.failed ∷ OrderStatus.expired ∷ [])
      then some now_at
      else order.completed_at
  let cancelled_at = if target == OrderStatus.cancelled then some now_at else order.cancelled_at
  updated ← update_transition_state order.id target started_at completed_at cancelled_at
  insert_transition (record {
    order_id = order.id;
    revision = revision;
    from_status = some order.status;
    to_status = target;
    actor = actor;
    reason = reason;
    payload_json = payload;
  })
  pure updated

unfoldable pub transition_order :
    Order → OrderStatus → String → Option String → Option Json → Action Order
unfolding OrderStatus-discrete
transition_order order target actor reason payload =
    if order.status == target
    then pure order
    else if not (order_transition_allowed order.status target)
    then pure order
    else apply_transition order target actor reason payload
