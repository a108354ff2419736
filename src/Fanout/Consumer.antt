-- ===== src/Fanout/Consumer.antt =====
-- inbox_writer.go: ConsumeClaim, which handles one event after another and stays with an event until it
-- succeeds, and handleMessageCreated. The copy for the dead letters, which changes nothing else, and the
-- topic of read positions alone are left out.
use maim.Common.{
  ℕ, Bool, true, false, ◌&&◌, not, Option, none, some, List, [], ◌∷◌, Result, ok, err, ◌>>=◌, ◌>>◌,
  guard, or_fail, if◌then◌else◌, ◌==◌, is_some, exists, select, map, pos, ltb_ℤ, ◌||◌,
}
use maim.Inbox.Model.{
  InboxKind, message_new, message_edited, message_recalled, message_deleted, conversation_removed,
  read_updated, unknown_kind, UserInbox, InboxRepo, is_read,
}
use maim.Inbox.Batch.{batch_insert}
use maim.Fanout.Event.{
  InboxChangeEvent, EventError, no_publication_sequence, no_user, unknown_kind_error, no_message,
  invalid_identity, validate,
}
use maim.Fanout.Live.{Live, Rows, user_ids, change_lives, read_lives, send_all}

-- slices.Contains.
abbrev pub contains : List ℕ → ℕ → Bool
contains us u = exists (λ v. v == u) us

-- The members among the recipients, in the order of the event.
abbrev pub present : List ℕ → List ℕ → List ℕ
present members us = select (contains members) us

-- The switch over the kind.
unfoldable pub recipients : Rows → InboxChangeEvent → InboxKind → Result EventError (List ℕ)
recipients r evt conversation_removed = ok evt.recipient_ids
recipients r evt read_updated = do
  user ← or_fail evt.user_id no_user
  ok (if contains (user_ids r) user then user ∷ [] else [])
recipients r evt (unknown_kind k) = err unknown_kind_error
recipients r evt _ = ok (present (user_ids r) evt.recipient_ids)

abbrev pub is_message : InboxKind → Bool
is_message message_new = true
is_message message_edited = true
is_message message_recalled = true
is_message message_deleted = true
is_message _ = false

-- The entry of a user, before BatchInsert gives it a position.
abbrev pub entry_of : ℕ → InboxChangeEvent → ℕ → UserInbox
entry_of now evt user = record {
  user_id = user;
  position = 0;
  conv_id = evt.conv_id;
  message_id = evt.message_id;
  kind = evt.kind;
  change_id = evt.change_id;
  last_read_seq = evt.last_read_seq;
  created_at = now;
}

-- The checks of a payload, and its recipients. `raw` is what the payload decodes to.
unfoldable pub accept :
    (ℕ → Bool) → Rows → Option InboxChangeEvent → Result EventError (InboxChangeEvent × List ℕ)
unfolding recipients
accept valid r raw = do
  evt ← or_fail raw invalid_identity
  validate valid evt
  guard (ltb_ℤ (pos 0) evt.publication_sequence || ltb_ℤ evt.publication_sequence (pos 0))
      no_publication_sequence
  users ← recipients r evt evt.kind
  guard (not (is_message evt.kind) || is_some evt.message_id) no_message
  ok (evt, users)

-- The streams, and what the devices were sent, oldest first.
pub record World : Type 0 where
  pub inbox : InboxRepo
  pub sent : List Live

-- One attempt at an event: the rows that it reads, the clock, and the broker.
pub record Attempt : Type 0 where
  pub rows : Rows
  pub now : ℕ
  pub works : ℕ → Bool

-- What is sent once the streams are stored.
unfoldable pub announce :
    (ℕ → Bool) → Attempt → InboxChangeEvent → List ℕ → List Live → List Live × Bool
announce valid a evt users sent =
    let (sent', fine) = send_all a.works sent (change_lives a.rows evt users) in
    if fine && is_read evt.kind
    then elim (read_lives valid a.rows evt) [
      | ok ls ↦ send_all a.works sent' ls
      | err e ↦ (sent', false)
    ]
    else (sent', fine)

-- handleMessageCreated, and whether it succeeded. What an attempt that fails has done stays done.
unfoldable pub handle_message_created :
    (ℕ → Bool) → Attempt → Option InboxChangeEvent → World → World × Bool
unfolding accept announce
handle_message_created valid a raw w = elim (accept valid a.rows raw) [
  | err e ↦ (w, false)
  | ok out ↦ elim (batch_insert valid a.now (map (entry_of a.now out.0) out.1) w.inbox) [
    | err e ↦ (w, false)
    | ok inbox ↦
        let (sent, fine) = announce valid a out.0 out.1 w.sent in
        (record { inbox = inbox; sent = sent }, fine)
  ]
]

-- Attempt after attempt until one succeeds; the attempts that are left, or none if the session ends
-- before.
unfoldable pub handle_until :
    (ℕ → Bool) → List Attempt → Option InboxChangeEvent → World → World × Option (List Attempt)
unfolding handle_message_created
handle_until valid [] raw w = (w, none)
handle_until valid (a ∷ attempts) raw w =
    let (w', fine) = handle_message_created valid a raw w in
    elim fine [ true ↦ (w', some attempts) | false ↦ handle_until valid attempts raw w' ]

-- ConsumeClaim: the events that are left unmarked.
unfoldable pub consume_claim :
    (ℕ → Bool)
    → List Attempt
    → List (Option InboxChangeEvent)
    → World
    → World × List (Option InboxChangeEvent)
unfolding handle_until
consume_claim valid attempts [] w = (w, [])
consume_claim valid attempts (raw ∷ raws) w =
    let (w', left) = handle_until valid attempts raw w in
    elim left [ none ↦ (w', raw ∷ raws) | some attempts' ↦ consume_claim valid attempts' raws w' ]
