-- ===== src/Examples/Queue.antt =====
-- The outbox: two conversations with a broker that refuses one event, and the delays.
use maim.Common.{
  ℕ, suc, ◌+◌, ◌*◌, ◌^◌, ◌≡◌, refl, false, none, some, [], ◌∷◌, ◌==◌, if◌then◌else◌, arith, pos,
  min,
}
use maim.Outbox.{
  OutboxStatus, OutboxEvent, pending, sent, is_blocked, Broker, Dispatch, dispatch_batch,
  exponential_backoff, max_backoff, second,
}
use maim.Outbox.Rows.{is_published}
use maim.Outbox.Order.{IsOrdered, dispatch_batch-IsOrdered}
use maim.Outbox.Backoff.{exponential_backoff_doubles, exponential_backoff_overflows}

abbrev event : ℕ → ℕ → ℕ → OutboxStatus → OutboxEvent
event id conv seq status = record {
  id = id;
  conv_id = conv;
  publication_sequence = seq;
  topic = 1;
  key = conv;
  payload = id;
  status = status;
  retry_count = 0;
  max_retries = 10;
  next_retry_at = none;
  last_error = 0;
  created_at = id;
  dispatched_at = none;
}

abbrev queue : Dispatch
queue = record {
  table =
      event 1 7 1 sent
      ∷ event 2 7 2 pending
      ∷ event 3 8 1 pending
      ∷ event 4 7 3 pending
      ∷ event 5 8 2 pending
      ∷ [];
  log = event 1 7 1 sent ∷ [];
}

-- The first event of conversation 8 is refused.
abbrev broker : Broker
broker = record {
  has_producer = λ topic. topic == 1;
  send = λ n e. if e.id == 3 then some 99 else none;
  clock = λ n. 100 + n;
  no_producer_error = 98;
}

queue-IsOrdered : IsOrdered queue
unfolding is_blocked is_published
queue-IsOrdered = record {
  keyed = (refl, (refl, (refl, (refl, (refl, tt)))));
  prefix = (
    (λ h. refl),
    ((λ h. ground arith), ((λ h. ground arith), ((λ h. ground arith), ((λ h. ground arith), tt)))),
  );
  published = (refl, tt);
  in_order = (tt, tt);
}

dispatch_batch-IsOrdered_example :
    (d' : Dispatch) × (dispatch_batch broker (λ i. false) 100 queue ≡ some d') × IsOrdered d'
dispatch_batch-IsOrdered_example =
    dispatch_batch-IsOrdered broker (λ i. false) 100 queue queue-IsOrdered

exponential_backoff_doubles_example :
    exponential_backoff (suc 3) ≡ pos (min (2 ^ 3 * second) max_backoff)
exponential_backoff_doubles_example = exponential_backoff_doubles 3 (omega arith)

exponential_backoff_overflows_example : exponential_backoff (56 + 2) ≡ pos 0
exponential_backoff_overflows_example = exponential_backoff_overflows 2 (omega arith)
