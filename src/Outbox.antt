-- ===== src/Outbox.antt =====
-- The transactional outbox of message-service: the rows of
-- app/message-service/internal/model/outbox_event.go, the queries of internal/repo/outbox_repo.go and
-- the dispatcher of internal/dispatcher/outbox_dispatcher.go. Other dispatchers' row locks, the clock
-- and the Kafka producers are parameters.
pub mod Rows
pub mod Order
pub mod Backoff
use maim.Common.{
  int64, ℕ, zero, suc, ◌+◌, ◌-◌, ◌*◌, ◌%◌, ◌^◌, ℤ, pos, negsuc, pos_part, ◌+ℤ◌, ltb_ℤ, Bool, true,
  false, ◌&&◌, ◌||◌, not, Option, none, some, List, [], ◌∷◌, ◌++◌, if◌then◌else◌, ◌==◌, ltb, leb,
  exists, select, update, delete, sort_by, take, length,
}

pub data OutboxStatus : Type 0 where
  pending sent failed : OutboxStatus

abbrev pub is_pending : OutboxStatus → Bool
is_pending pending = true
is_pending _ = false

abbrev pub is_sent : OutboxStatus → Bool
is_sent sent = true
is_sent _ = false

-- Texts and payloads are carried along and never inspected: they are numbers.
pub record OutboxEvent : Type 0 where
  pub id : ℕ
  pub conv_id : ℕ
  pub publication_sequence : ℕ
  pub topic : ℕ
  pub key : ℕ
  pub payload : ℕ
  pub status : OutboxStatus
  pub retry_count : ℕ
  pub max_retries : ℕ
  pub next_retry_at : Option ℕ
  pub last_error : ℕ
  pub created_at : ℕ
  pub dispatched_at : Option ℕ

abbrev is_due : ℕ → Option ℕ → Bool
is_due now none = true
is_due now (some t) = leb t now

-- EXISTS an event of the conversation that is older and not sent.
unfoldable pub is_blocked : List OutboxEvent → OutboxEvent → Bool
is_blocked table e =
    exists
      (λ older.
        older.conv_id == e.conv_id
        && (not (is_sent older.status) && ltb older.publication_sequence e.publication_sequence))
      table

-- `locked` are the rows that SKIP LOCKED passes over.
pub fetch_pending : (ℕ → Bool) → ℕ → ℕ → List OutboxEvent → List OutboxEvent
fetch_pending locked now limit table = take limit (
    sort_by (λ e. e.created_at)
      (sort_by (λ e. e.publication_sequence)
        (select
          (λ e.
            is_pending e.status
            && (is_due now e.next_retry_at && (not (is_blocked table e) && not (locked e.id))))
          table)))

abbrev pub by_id : ℕ → OutboxEvent → Bool
by_id i e = e.id == i

pub mark_sent : ℕ → ℕ → List OutboxEvent → List OutboxEvent
mark_sent now i = update (by_id i) (λ e. record e { status = sent; dispatched_at = some now })

pub mark_retry : ℕ → ℕ → ℕ → List OutboxEvent → List OutboxEvent
mark_retry i at error =
    update (by_id i) (λ e. record e {
      next_retry_at = some at;
      last_error = error;
      retry_count = e.retry_count + 1;
    })

pub mark_failed : ℕ → ℕ → List OutboxEvent → List OutboxEvent
mark_failed i error =
    update (by_id i)
      (λ e. record e { status = failed; last_error = error; retry_count = e.retry_count + 1 })

abbrev dispatched_before : ℕ → Option ℕ → Bool
dispatched_before t none = false
dispatched_before t (some d) = ltb d t

-- The first `limit` rows of the condition go.
pub delete_up_to : (OutboxEvent → Bool) → ℕ → List OutboxEvent → List OutboxEvent
delete_up_to test limit [] = []
delete_up_to test zero (e ∷ es) = e ∷ es
delete_up_to test (suc n) (e ∷ es) =
    if test e then delete_up_to test n es else e ∷ delete_up_to test (suc n) es

pub delete_sent_before : ℕ → ℕ → List OutboxEvent → List OutboxEvent
unfolding delete_up_to
delete_sent_before before limit table =
    delete_up_to (λ e. is_sent e.status && dispatched_before before e.dispatched_at) limit table

-- Durations are nanoseconds.
abbrev pub second : ℕ
second = 1000000000

abbrev pub max_backoff : ℕ
max_backoff = 60 * second

-- The delay before the given attempt. The power is a float, exact below 2 ^ 63 and 1/2 at zero; the
-- product with a second is an int64.
unfoldable pub exponential_backoff : ℕ → ℤ
exponential_backoff retry_count =
    let power : ℕ = if retry_count == 0 then 0 else 2 ^ (retry_count - 1) in
    let d = int64 (power * second) in if ltb_ℤ (pos max_backoff) d then pos max_backoff else d

-- A send that fails has an error.
pub record Broker : Type 0 where
  pub has_producer : ℕ → Bool
  -- By the number of the dispatch and the event.
  pub send : ℕ → OutboxEvent → Option ℕ
  pub clock : ℕ → ℕ
  pub no_producer_error : ℕ

-- The table, and what Kafka has accepted.
pub record Dispatch : Type 0 where
  pub table : List OutboxEvent
  pub log : List OutboxEvent

-- One event of a batch, with the number of its dispatch.
pub dispatch_event : Broker → ℕ → OutboxEvent → Dispatch → Dispatch
unfolding mark_sent mark_retry mark_failed
dispatch_event b n e d =
    if b.has_producer e.topic
    then elim (b.send n e) [
      | none ↦ record { table = mark_sent (b.clock n) e.id d.table; log = d.log ++ e ∷ [] }
      | some error ↦
          if leb e.max_retries (e.retry_count + 1)
          then record d { table = mark_failed e.id error d.table }
          else record d {
            table =
                mark_retry e.id
                  (pos_part (pos (b.clock n) +ℤ exponential_backoff (e.retry_count + 1))) error
                  d.table;
          }
    ]
    else record d { table = mark_failed e.id b.no_producer_error d.table }

pub dispatch_events : Broker → ℕ → List OutboxEvent → Dispatch → Dispatch
unfolding dispatch_event
dispatch_events b n [] d = d
dispatch_events b n (e ∷ es) d = dispatch_events b (n + 1) es (dispatch_event b (n + 1) e d)

-- `for dispatched < batchSize`; `none` means that the fuel ran out.
pub dispatch_loop : Broker → (ℕ → Bool) → ℕ → ℕ → ℕ → Dispatch → Option Dispatch
unfolding fetch_pending dispatch_events is_blocked
dispatch_loop b locked batch_size zero n d = none
dispatch_loop b locked batch_size (suc fuel) n d =
    let events = fetch_pending locked (b.clock n) (batch_size - n) d.table in
    let rest =
      dispatch_loop b locked batch_size fuel (n + length events) (dispatch_events b n events d) in
    if ltb n batch_size then (if length events == 0 then some d else rest) else some d

unfoldable pub dispatch_batch : Broker → (ℕ → Bool) → ℕ → Dispatch → Option Dispatch
unfolding dispatch_loop
dispatch_batch b locked batch_size d = dispatch_loop b locked batch_size (suc batch_size) 0 d
