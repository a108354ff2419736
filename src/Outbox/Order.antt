-- ===== src/Outbox/Order.antt =====
-- The dispatcher publishes the events of a conversation in their order, whatever fails.
use maim.Common.{
  ℕ, zero, suc, ◌+◌, ◌-◌, ◌≤◌, ◌<◌, ◌≡◌, refl, inl, inr, Bool, true, false, some, List, [], ◌∷◌,
  ◌++◌, Memᴰ, arith, ◌==◌, ltb, leb, All, All-map, All-mem, All-of_mem, All-append, update, length,
  mem-update_miss, UniqueKeys, UniqueKeys-update, exists-of_mem, mem-of_exists, All-of_not_exists,
  mem-update_hit, UniqueKeys-select, UniqueKeys-sort_by, UniqueKeys-take, ==_refl, select-test_mem,
  mem-of_select, mem-of_sort_by, take-mem, Bool-cases, Option-cases, pos, pos_part, ◌+ℤ◌,
}
use maim.Outbox.{
  OutboxEvent, sent, failed, is_sent, is_pending, is_blocked, by_id, fetch_pending, Broker,
  Dispatch, exponential_backoff, dispatch_event, dispatch_events, dispatch_loop, dispatch_batch,
}
use maim.Outbox.Rows.{
  event_id, SentPrefix, is_published, KeepsPlace, is_blocked-update, is_blocked-of_older,
  SentPrefix-update, is_published-update,
}

-- What was published of a conversation, in order.
abbrev pub InOrder : List OutboxEvent → Type 0
InOrder [] = Unit
InOrder (x ∷ xs) =
    All (λ y. y.conv_id ≡ x.conv_id → x.publication_sequence ≤ y.publication_sequence) xs
    × InOrder xs

pub record IsOrdered (d : Dispatch) : Type 0 where
  pub keyed : UniqueKeys event_id d.table
  pub prefix : SentPrefix d.table
  pub published : All (λ e. is_published d.table e ≡ true) d.log
  pub in_order : InOrder d.log

-- What a dispatch does to its row and to the log.
data Outcome (f : OutboxEvent) (d : Dispatch) (d' : Dispatch) : Type 0 where
  refused :
      (g : OutboxEvent → OutboxEvent)
      → KeepsPlace g
      → is_sent (g f).status ≡ false
      → d' ≡ record { table = update (by_id f.id) g d.table; log = d.log }
      → Outcome f d d'
  accepted :
      (g : OutboxEvent → OutboxEvent)
      → KeepsPlace g
      → is_sent (g f).status ≡ true
      → d' ≡ record { table = update (by_id f.id) g d.table; log = d.log ++ f ∷ [] }
      → Outcome f d d'

place_kept :
    (g : OutboxEvent → OutboxEvent)
    → ((e : OutboxEvent)
        → ((g e).id ≡ e.id)
          × ((g e).conv_id ≡ e.conv_id)
          × ((g e).publication_sequence ≡ e.publication_sequence))
    → KeepsPlace g
place_kept g h = record { id = λ e. (h e).0; conv = λ e. (h e).1; seq = λ e. (h e).2 }

dispatch_event-Outcome :
    (b : Broker) (n : ℕ) (f : OutboxEvent) (d : Dispatch)
    → is_pending f.status ≡ true
    → Outcome f d (dispatch_event b n f d)
unfolding dispatch_event
dispatch_event-Outcome b n f d w = elim (Bool-cases (b.has_producer f.topic)) [
  | inr e ↦
      refused
        (λ x. record x {
          status = failed;
          last_error = b.no_producer_error;
          retry_count = x.retry_count + 1;
        })
        (place_kept _ (λ x. (refl, refl, refl))) refl (rw e)
  | inl e ↦ elim (Option-cases (b.send n f)) [
    | inl k ↦
        accepted (λ x. record x { status = sent; dispatched_at = some (b.clock n) })
          (place_kept _ (λ x. (refl, refl, refl))) refl (rw e (rw k))
    | inr (error, k) ↦ elim (Bool-cases (leb f.max_retries (f.retry_count + 1))) [
      | inl l ↦
          refused
            (λ x. record x { status = failed; last_error = error; retry_count = x.retry_count + 1 })
            (place_kept _ (λ x. (refl, refl, refl))) refl (rw e (rw k (rw l)))
      | inr l ↦
          refused
            (λ x. record x {
              next_retry_at =
                  some (pos_part (pos (b.clock n) +ℤ exponential_backoff (f.retry_count + 1)));
              last_error = error;
              retry_count = x.retry_count + 1;
            })
            (place_kept _ (λ x. (refl, refl, refl))) (ground arith) (rw e (rw k (rw l)))
    ]
  ]
]

-- An event at hand: its row is as it was read, it waits, and no older event holds it back.
abbrev IsReady : List OutboxEvent → OutboxEvent → Type 0
IsReady table f = Memᴰ f table × (is_pending f.status ≡ true) × (is_blocked table f ≡ false)

-- What is on record as published is not younger than an event that is ready.
published-le :
    (table : List OutboxEvent) (l f : OutboxEvent)
    → SentPrefix table
    → IsReady table f
    → is_published table l ≡ true
    → f.conv_id ≡ l.conv_id
    → l.publication_sequence ≤ f.publication_sequence
unfolding is_published
published-le table l f prefix ready h c =
    let (row, m, t) = mem-of_exists _ table h in
    let free : is_blocked table row ≡ false = All-mem _ table row prefix m (ground arith) in
    elim (Bool-cases (ltb f.publication_sequence l.publication_sequence)) [
      | inr e ↦ ground arith
      | inl e ↦
          let b = is_blocked-of_older table f row ready.0 ready.1 (ground arith) (ground arith) in
          absurd (cc)
    ]

InOrder-append :
    (log : List OutboxEvent) (f : OutboxEvent)
    → All (λ l. f.conv_id ≡ l.conv_id → l.publication_sequence ≤ f.publication_sequence) log
    → InOrder log
    → InOrder (log ++ f ∷ [])
InOrder-append [] f h o = (tt, tt)
InOrder-append (x ∷ xs) f h o =
    (All-append _ xs (f ∷ []) o.0 (h.0, tt), InOrder-append xs f h.1 o.1)

-- Publishing puts the event on record.
is_published_self :
    (table : List OutboxEvent) (f : OutboxEvent) (g : OutboxEvent → OutboxEvent)
    → KeepsPlace g
    → is_sent (g f).status ≡ true
    → Memᴰ f table
    → is_published (update (by_id f.id) g table) f ≡ true
unfolding is_published
is_published_self table f g k s m =
    exists-of_mem _ (update (by_id f.id) g table) (g f)
      (mem-update_hit (by_id f.id) g table f (==_refl f.id) m) (ground (arith, k.conv f, k.seq f))

-- One dispatch keeps the order, and the other events at hand stay ready.
dispatch_event-IsOrdered :
    (b : Broker) (n : ℕ) (f : OutboxEvent) (d : Dispatch)
    → IsOrdered d
    → IsReady d.table f
    → IsOrdered (dispatch_event b n f d)
      × ((e : OutboxEvent)
          → (e.id == f.id) ≡ false
          → IsReady d.table e
          → IsReady (dispatch_event b n f d).table e)
dispatch_event-IsOrdered b n f d o r = elim (dispatch_event-Outcome b n f d r.1) [
  | refused g k s e ↦ rw e (
    record {
      keyed = UniqueKeys-update event_id (by_id f.id) g d.table k.id o.keyed;
      prefix = SentPrefix-update d.table f g k o.keyed r.0 r.1 (λ t. r.2) o.prefix;
      published =
          All-map _ _ d.log (λ l. is_published-update d.table f g k o.keyed r.0 r.1 l) o.published;
      in_order = o.in_order;
    },
    λ x ne q. (
      mem-update_miss (by_id f.id) g d.table x ne q.0,
      q.1,
      is_blocked-update d.table f g k o.keyed r.0 r.1 x q.2,
    ),
  )
  | accepted g k s e ↦ rw e (
    record {
      keyed = UniqueKeys-update event_id (by_id f.id) g d.table k.id o.keyed;
      prefix = SentPrefix-update d.table f g k o.keyed r.0 r.1 (λ t. r.2) o.prefix;
      published =
          All-append _ d.log (f ∷ [])
            (All-map _ _ d.log (λ l. is_published-update d.table f g k o.keyed r.0 r.1 l)
              o.published)
            (is_published_self d.table f g k s r.0, tt);
      in_order =
          InOrder-append d.log f
            (All-map _ _ d.log (λ l. published-le d.table l f o.prefix r) o.published) o.in_order;
    },
    λ x ne q. (
      mem-update_miss (by_id f.id) g d.table x ne q.0,
      q.1,
      is_blocked-update d.table f g k o.keyed r.0 r.1 x q.2,
    ),
  )
]

dispatch_events-IsOrdered :
    (b : Broker) (n : ℕ) (es : List OutboxEvent) (d : Dispatch)
    → IsOrdered d
    → UniqueKeys event_id es
    → All (IsReady d.table) es
    → IsOrdered (dispatch_events b n es d)
unfolding dispatch_events
dispatch_events-IsOrdered b n [] d o u r = o
dispatch_events-IsOrdered b n (e ∷ es) d o u r =
    let (o', keep) = dispatch_event-IsOrdered b (n + 1) e d o r.0 in
    dispatch_events-IsOrdered b (n + 1) es (dispatch_event b (n + 1) e d) o' u.1 (
      All-of_mem _ es
        (λ x m. keep x (All-mem _ es x (All-of_not_exists _ es u.0) m) (All-mem _ es x r.1 m)))

-- What is fetched is ready.
fetch_pending-IsReady :
    (locked : ℕ → Bool) (now limit : ℕ) (table : List OutboxEvent)
    → All (IsReady table) (fetch_pending locked now limit table)
unfolding fetch_pending
fetch_pending-IsReady locked now limit table = All-of_mem (IsReady table) _ (λ e m.
    let k =
      mem-of_sort_by (λ e. e.publication_sequence) e _
        (mem-of_sort_by (λ e. e.created_at) e _ (take-mem limit _ e m)) in
    let t = select-test_mem _ table e k in (mem-of_select _ table e k, ground arith, ground arith))

fetch_pending-UniqueKeys :
    (locked : ℕ → Bool) (now limit : ℕ) (table : List OutboxEvent)
    → UniqueKeys event_id table
    → UniqueKeys event_id (fetch_pending locked now limit table)
unfolding fetch_pending
fetch_pending-UniqueKeys locked now limit table u = UniqueKeys-take event_id limit _ (
    UniqueKeys-sort_by event_id (λ e. e.created_at) _
      (UniqueKeys-sort_by event_id (λ e. e.publication_sequence) _
        (UniqueKeys-select event_id _ table u)))

-- The loop ends within its fuel, and keeps the order.
dispatch_loop_total :
    (b : Broker) (locked : ℕ → Bool) (batch_size fuel n : ℕ) (d : Dispatch)
    → IsOrdered d
    → batch_size - n < fuel
    → (d' : Dispatch) × (dispatch_loop b locked batch_size fuel n d ≡ some d') × IsOrdered d'
unfolding dispatch_loop
dispatch_loop_total b locked batch_size zero n d o h = absurd (omega arith)
dispatch_loop_total b locked batch_size (suc fuel) n d o h =
    let events : List OutboxEvent = fetch_pending locked (b.clock n) (batch_size - n) d.table in
    elim (Bool-cases (ltb n batch_size)) [
      | inr e ↦ (d, rw e, o)
      | inl e ↦ elim (Bool-cases (length events == 0)) [
        | inl z ↦ (d, rw e (rw z), o)
        | inr z ↦
            let o' =
              dispatch_events-IsOrdered b n events d o
                (fetch_pending-UniqueKeys locked (b.clock n) (batch_size - n) d.table o.keyed)
                (fetch_pending-IsReady locked (b.clock n) (batch_size - n) d.table) in
            let (d', q, r) =
              dispatch_loop_total b locked batch_size fuel (n + length events)
                (dispatch_events b n events d) o' (ground arith) in
            (d', rw e (rw z q), r)
      ]
    ]

-- Whatever the broker accepts or refuses, a batch ends, and it keeps the order: an event is marked
-- sent only after all older events of its conversation, and Kafka has the events of each conversation
-- in the order of their publication sequence. The events have their primary key.
pub dispatch_batch-IsOrdered :
    (b : Broker) (locked : ℕ → Bool) (batch_size : ℕ) (d : Dispatch)
    → IsOrdered d
    → (d' : Dispatch) × (dispatch_batch b locked batch_size d ≡ some d') × IsOrdered d'
unfolding dispatch_batch
dispatch_batch-IsOrdered b locked batch_size d o =
    dispatch_loop_total b locked batch_size (suc batch_size) 0 d o (omega arith)
