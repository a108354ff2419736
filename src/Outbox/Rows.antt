-- ===== src/Outbox/Rows.antt =====
-- What the changes of one outbox row leave of the order of publication.
use maim.Common.{
  ℕ, ◌<◌, ◌≡◌, ap, ◌∙◌, Bool, true, false, ◌&&◌, List, Memᴰ, arith, ◌==◌, All, All-mem, exists,
  update, exists-update-false, exists-update-true, exists-of_mem, All-update, UniqueKeys,
  unique_row, ==_iff,
}
use maim.Outbox.{OutboxEvent, is_sent, is_pending, is_blocked, by_id}

-- The primary key.
abbrev pub event_id : OutboxEvent → ℕ
event_id e = e.id

-- An event is sent only after all older events of its conversation.
abbrev pub SentPrefix : List OutboxEvent → Type 0
SentPrefix table = All (λ e. is_sent e.status ≡ true → is_blocked table e ≡ false) table

-- The event's row says that it is sent.
unfoldable pub is_published : List OutboxEvent → OutboxEvent → Bool
is_published table e =
    exists
      (λ row.
        row.conv_id == e.conv_id
        && (row.publication_sequence == e.publication_sequence && is_sent row.status))
      table

-- A change of a row that leaves its identity and place alone.
pub record KeepsPlace (g : OutboxEvent → OutboxEvent) : Type 0 where
  pub id : (e : OutboxEvent) → (g e).id ≡ e.id
  pub conv : (e : OutboxEvent) → (g e).conv_id ≡ e.conv_id
  pub seq : (e : OutboxEvent) → (g e).publication_sequence ≡ e.publication_sequence

-- Whether an event is blocked depends on its place alone.
is_blocked-place :
    (table : List OutboxEvent) (e e' : OutboxEvent)
    → e'.conv_id ≡ e.conv_id
    → e'.publication_sequence ≡ e.publication_sequence
    → is_blocked table e ≡ false
    → is_blocked table e' ≡ false
unfolding is_blocked
is_blocked-place table e e' p q h = rw (p, q) h

-- The row of a pending event `f` changes by `g`.
module _ (table : List OutboxEvent) (f : OutboxEvent) (g : OutboxEvent → OutboxEvent)
    (keeps : KeepsPlace g) (unique : UniqueKeys event_id table) (stored : Memᴰ f table)
    (waiting : is_pending f.status ≡ true) where
  row_eq : (a : OutboxEvent) → Memᴰ a table → by_id f.id a ≡ true → a ≡ f
  row_eq a m e = unique_row event_id table a f unique m stored ((==_iff a.id f.id).0 e)

  -- No event becomes blocked.
  pub is_blocked-update :
      (e : OutboxEvent)
      → is_blocked table e ≡ false
      → is_blocked (update (by_id f.id) g table) e ≡ false
  unfolding is_blocked
  is_blocked-update e h =
      exists-update-false _ (by_id f.id) g table
        (λ a m w t. ground (arith, row_eq a m w, keeps.conv a, keeps.seq a)) h

  -- A row that becomes sent was not blocked.
  pub SentPrefix-update :
      (is_sent (g f).status ≡ true → is_blocked table f ≡ false)
      → SentPrefix table
      → SentPrefix (update (by_id f.id) g table)
  SentPrefix-update free prefix =
      All-update (λ e. is_sent e.status ≡ true → is_blocked (update (by_id f.id) g table) e ≡ false)
        (by_id f.id) g table
        (λ a m w s.
          let same = row_eq a m w in
          is_blocked-place _ f (g a) (keeps.conv a ∙ ap (λ (z : OutboxEvent). z.conv_id) same)
            (keeps.seq a ∙ ap (λ (z : OutboxEvent). z.publication_sequence) same)
            (is_blocked-update f (free (rw same at s))))
        (λ a m w s. is_blocked-update a (All-mem _ table a prefix m s))

  pub is_published-update :
      (e : OutboxEvent)
      → is_published table e ≡ true
      → is_published (update (by_id f.id) g table) e ≡ true
  unfolding is_published
  is_published-update e h =
      exists-update-true _ (by_id f.id) g table (λ a m w t. ground (arith, row_eq a m w)) h

-- An event that waits holds back the younger events of its conversation.
pub is_blocked-of_older :
    (table : List OutboxEvent) (f e : OutboxEvent)
    → Memᴰ f table
    → is_pending f.status ≡ true
    → f.conv_id ≡ e.conv_id
    → f.publication_sequence < e.publication_sequence
    → is_blocked table e ≡ true
unfolding is_blocked
is_blocked-of_older table f e m w c h = exists-of_mem _ table f m (ground arith)
