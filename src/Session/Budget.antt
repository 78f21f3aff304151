-- ===== src/Session/Budget.antt =====
-- session.go: the reserves of the pending budget, and the two functions that change it.
use tproxy_server.Base.{
  ℕ, ◌+◌, ◌-◌, ◌*◌, ◌/◌, ◌^◌, Bool, true, false, ◌||◌, ◌&&◌, not, Option, none, some, ltb, leb,
  ◌==◌, if◌then◌else◌,
}
use tproxy_server.Frame.{header_size, max_batch_frames}
use tproxy_server.Config.{Limits}
use tproxy_server.Session.{Session, Hooks, PendingClass, uplink, downlink, control, queue_item_cost}

-- math.MaxInt on a 64-bit machine
abbrev pub max_int : ℕ
max_int = 2 ^ 63 - 1

abbrev control_reserve_extra_items : ℕ
control_reserve_extra_items = 16

abbrev control_reserve_items_per_stream : ℕ
control_reserve_items_per_stream = 3

-- A cost and a number of items.
pub record Amount : Type 0 where
  pub cost : ℕ
  pub items : ℕ

abbrev whole_session : Limits → Amount
whole_session l = record {
  cost = l.max_pending_per_session;
  items = l.max_pending_items_per_session;
}

unfoldable pub pending_control_reserve : Limits → Amount
pending_control_reserve l =
    if ltb ((max_int - control_reserve_extra_items) / control_reserve_items_per_stream)
      l.max_streams_per_session
    then whole_session l
    else if ltb (max_int / per_item) items
    then whole_session l
    else record { cost = items * per_item; items = items }
  where
    items : ℕ
    items =
        control_reserve_extra_items + l.max_streams_per_session * control_reserve_items_per_stream

    per_item : ℕ
    per_item = queue_item_cost + header_size + 4

unfoldable pub pending_uplink_reserve : Limits → Amount
pending_uplink_reserve l =
    if ltb ((max_int - l.max_body_bytes) / queue_item_cost) items
    then whole_session l
    else record { cost = l.max_body_bytes + items * queue_item_cost; items = items }
  where
    frames : ℕ
    frames = l.max_body_bytes / header_size

    items : ℕ
    items = if ltb max_batch_frames frames then max_batch_frames else frames

unfoldable pub subtract_pending_reserve : Amount → Amount → Amount
subtract_pending_reserve from reserve = record {
  cost = if leb from.cost reserve.cost then 0 else from.cost - reserve.cost;
  items = if leb from.items reserve.items then 0 else from.items - reserve.items;
}

unfoldable pub uplink_pending_limits : Limits → Amount
unfolding subtract_pending_reserve pending_control_reserve
uplink_pending_limits l = subtract_pending_reserve (whole_session l) (pending_control_reserve l)

unfoldable pub downlink_pending_limits : Limits → Amount
unfolding uplink_pending_limits pending_uplink_reserve
downlink_pending_limits l =
    subtract_pending_reserve (uplink_pending_limits l) (pending_uplink_reserve l)

-- The limits that a class of charges is held to.
unfoldable pub class_limits : PendingClass → Limits → Amount
class_limits uplink l = uplink_pending_limits l
class_limits downlink l = downlink_pending_limits l
class_limits control l = whole_session l

-- The test of ValidateBudget: `sessions` times the reserve stays within the global limits.
unfoldable pub validate_budget : Limits → Bool
validate_budget l =
    leb (pending_control_reserve l).cost (l.max_pending_global / l.max_sessions_global)
    && leb (pending_control_reserve l).items (l.max_pending_items_global / l.max_sessions_global)

module _ {W : Type 0} where
  -- `available` is negative in Go where the subtraction stops at 0 here: both give 0.
  unfoldable pub data_frame_allowance : ℕ → Session W → ℕ
  data_frame_allowance limit s =
      if leb (downlink_pending_limits s.limits).items s.pending_items
      then 0
      else if available == 0
      then 0
      else if ltb available limit
      then available
      else limit
    where
      available : ℕ
      available =
          (downlink_pending_limits s.limits).cost - s.pending_cost - queue_item_cost - header_size

  -- `s.pendingCost > costLimit-cost` is tested where `cost <= costLimit`.
  abbrev pub fits : ℕ → ℕ → Amount → Session W → Bool
  fits cost items limits s = not (
      cost == 0
      || (ltb limits.cost cost
          || (ltb limits.items items
              || (ltb (limits.cost - cost) s.pending_cost
                  || ltb (limits.items - items) s.pending_items))))

  abbrev pub charge : ℕ → ℕ → Session W → Bool × W → Bool × Session W
  charge cost items s (true, w) = (
    true,
    record s {
      pending_cost = s.pending_cost + cost;
      pending_items = s.pending_items + items;
      world = w;
    },
  )
  charge cost items s (false, w) = (false, record s { world = w })

module _ {W : Type 0} ⦃h : Hooks W⦄ where
  unfoldable pub reserve_pending : ℕ → ℕ → PendingClass → Session W → Bool × Session W
  reserve_pending cost items class s =
      if fits cost items (class_limits class s.limits) s
      then charge cost items s (h.take cost items class s.world)
      else (false, s)

  -- `none` is the panic: more is given back than was charged.
  unfoldable pub release_pending : ℕ → ℕ → Session W → Option (Session W)
  release_pending cost items s =
      if cost == 0 && items == 0
      then some s
      else if ltb s.pending_cost cost || ltb s.pending_items items
      then none
      else elim (h.give cost items s.world) [
        | none ↦ none
        | some w ↦ some (record s {
          pending_cost = s.pending_cost - cost;
          pending_items = s.pending_items - items;
          budget_notify = s.budget_notify + 1;
          world = w;
        })
      ]
