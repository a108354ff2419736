-- ===== src/Fanout/Sending.antt =====
-- From a sender to the streams of the members.
use maim.Common.{
  ℕ, ◌≡◌, refl, sym, ◌∙◌, ap, subst, true, not, Option, none, some, List, [], ◌∷◌, ◌++◌, Memᴰ, ok,
  guard, or_fail, >>=-eq-ok, ok-injective, All, exists, find, is_some,
}
use maim.Inbox.Model.{message_new}
use maim.Conversations.Model.{Room, Member, Channel, Event, Change, message_changed, identity_error}
use maim.Conversations.Channel.{publish_inbox_change, next_publication, next_seq}
use maim.Messages.Model.{Message, Thread, record_not_found, internal, by_id, internally}
use maim.Messages.Permission.{message_change, publish_message, check_send_permission}
use maim.Messages.Send.{
  SendContext, SendMessageReq, submitted_as, persist_message, create_message, submit_message,
  send_message, stored_content, validate_reply_target, check_sender, new_message,
}
use maim.Messages.Steps.{internally-eq-ok}
use maim.Messages.Effects.Sent.{send_message-eq-ok}
use maim.Messages.Admitted.{recipients_of-mem}
use maim.Fanout.Event.{InboxChangeEvent, payload_of, message_event}
use maim.Fanout.Live.{user_ids}
use maim.Fanout.Consumer.{contains, World, Attempt, consume_claim}
use maim.Fanout.Reach.{Reached, IsOnly, IsReadyFor, consume_claim-Reached}

-- One more event, with the change.
abbrev pub Publishes : Change → List Event → List Event → Type 0
Publishes change before after = (e : Event) × (after ≡ before ++ e ∷ []) × (e.change ≡ change)

publish_inbox_change-Publishes :
    (new_id : ℕ → Option ℕ) (change : Change) (ch ch' : Channel)
    → publish_inbox_change new_id change ch ≡ ok ch'
    → Publishes change ch.outbox ch'.outbox
unfolding publish_inbox_change
publish_inbox_change-Publishes new_id change ch ch' h =
    let (next, n, h1) = >>=-eq-ok (next_publication ch) _ h in
    let (id, i, h2) = >>=-eq-ok (or_fail (new_id next) identity_error) _ h1 in
    (
      record { id = id; publication_sequence = next; change = change },
      sym (ap (λ (z : Channel). z.outbox) (ok-injective h2)),
      refl,
    )

-- The change of a new message, for the members of now.
abbrev pub change_of_new : Message → Room → Change
change_of_new m r = message_changed (message_change message_new m none r.members)

publish_message-Publishes :
    (new_id : ℕ → Option ℕ) (m : Message) (t t' : Thread)
    → publish_message new_id message_new m none t ≡ ok t'
    → Publishes (change_of_new m t.room) t.room.channel.outbox t'.room.channel.outbox
unfolding publish_message
publish_message-Publishes new_id m t t' h =
    let (u, c, h1) = >>=-eq-ok (guard (is_some t.room.conv) record_not_found) _ h in
    let (ch, p, h2) =
      >>=-eq-ok (internally (publish_inbox_change new_id (change_of_new m t.room) t.room.channel)) _
        h1 in
    let published =
      publish_inbox_change-Publishes new_id (change_of_new m t.room) t.room.channel ch
        (internally-eq-ok _ p) in
    subst
      (λ (z : Thread).
        Publishes (change_of_new m t.room) t.room.channel.outbox z.room.channel.outbox)
      (ok-injective h2) published

persist_message-Publishes :
    (event_id : ℕ → Option ℕ) (cut : ℕ → ℕ) (m m' : Message) (t t' : Thread)
    → persist_message event_id cut m t ≡ ok (m', t')
    → Publishes (change_of_new m' t.room) t.room.channel.outbox t'.room.channel.outbox
unfolding persist_message
persist_message-Publishes event_id cut m m' t t' h =
    let (seq, a, h1) = >>=-eq-ok (internally (next_seq t.room.channel.current_seq)) _ h in
    let (u, b, h2) = >>=-eq-ok (guard (not (exists (by_id m.id) t.messages)) internal) _ h1 in
    let sent : Message = record m { seq = seq } in
    let numbered : Thread = record t {
      room = record t.room { channel = record t.room.channel { current_seq = some seq } };
      messages = t.messages ++ sent ∷ [];
    } in
    let (t1, c, h3) = >>=-eq-ok (publish_message event_id message_new sent none numbered) _ h2 in
    subst
      (λ (z : Message × Thread).
        Publishes (change_of_new z.0 t.room) t.room.channel.outbox z.1.room.channel.outbox)
      (ok-injective h3) (publish_message-Publishes event_id sent numbered t1 c)

-- A message under a new key is published to the members of now.
pub send_message-Publishes :
    (cut : ℕ → ℕ) (w : SendContext) (caller : Option ℕ) (q : SendMessageReq) (m : Message)
    (t t' : Thread)
    → send_message cut w caller q t ≡ ok (m, t')
    → find (submitted_as q.from_user_id q.client_msg_id) t.messages ≡ none
    → Publishes (change_of_new m t.room) t.room.channel.outbox t'.room.channel.outbox
unfolding submit_message create_message
send_message-Publishes cut w caller q m t t' h free =
    let (who, (body, valid, e)) = send_message-eq-ok cut w caller q t t' m h in
    let (p, a, h1) = >>=-eq-ok (check_send_permission w.valid q.from_user_id t.room) _ e in
    let (u, b, h2) = >>=-eq-ok (check_sender w.now q.from_user_id w.blocks p) _ h1 in
    let made : create_message cut w q body t ≡ ok (m, t') = rw free at h2 in
    let (stored, c, h3) = >>=-eq-ok (stored_content w q body) _ made in
    let (u', d, h4) = >>=-eq-ok (validate_reply_target q.from_user_id q.reply_to_id t) _ h3 in
    let (id, f, h5) = >>=-eq-ok (or_fail w.new_id internal) _ h4 in
    persist_message-Publishes w.event_id cut (new_message w q body id stored.0 stored.1) m t t' h5

-- The last of a list.
last_injective {ℓ} : {A : Type ℓ} (xs : List A) (a b : A) → xs ++ a ∷ [] ≡ xs ++ b ∷ [] → a ≡ b
last_injective [] a b h = cc
last_injective (x ∷ xs) a b h = last_injective xs a b (cc h)

payload_of-new :
    (conv_id : ℕ) (e : Event) (m : Message) (r : Room)
    → e.change ≡ change_of_new m r
    → payload_of conv_id e
      ≡ some (message_event conv_id e (message_change message_new m none r.members))
unfolding payload_of
payload_of-new conv_id e m r h = rw h refl

-- The event of a new message, for the members of now.
abbrev pub event_of_new : ℕ → Event → Message → Room → InboxChangeEvent
event_of_new conv_id e m r = message_event conv_id e (message_change message_new m none r.members)

-- A message that is stored under a new key reaches its members: once the consumer has marked every
-- event that it was given, the one that the message leaves in the outbox among them, the message's entry
-- is in the streams of all who were members when it was sent and are members at each attempt, the
-- sender included, whatever fails in between. No other event has the event's identity; at the start
-- the entries have their primary key, and the event is new to the user, or its entry is there.
pub send_message-Reached :
    (cut : ℕ → ℕ) (w : SendContext) (caller : Option ℕ) (q : SendMessageReq) (m : Message)
    (t t' : Thread) (e : Event) (x : Member) (tries : List Attempt)
    (raws : List (Option InboxChangeEvent)) (v : World)
    → send_message cut w caller q t ≡ ok (m, t')
    → find (submitted_as q.from_user_id q.client_msg_id) t.messages ≡ none
    → t'.room.channel.outbox ≡ t.room.channel.outbox ++ e ∷ []
    → Memᴰ x t.room.members
    → All (λ (a : Attempt). contains (user_ids a.rows) x.user_id ≡ true) tries
    → Memᴰ (payload_of q.conversation_id e) raws
    → All (IsOnly (event_of_new q.conversation_id e m t.room)) raws
    → IsReadyFor x.user_id (event_of_new q.conversation_id e m t.room) v
    → (consume_claim w.valid tries raws v).1 ≡ []
    → Reached x.user_id
        (event_of_new q.conversation_id e m t.room)
        (consume_claim w.valid tries raws v).0
send_message-Reached cut w caller q m t t' e x tries raws v h free out mem inside given only ready
      done =
    let (made, appended, change) = send_message-Publishes cut w caller q m t t' h free in
    let same = last_injective t.room.channel.outbox made e (sym appended ∙ out) in
    let payload =
      payload_of-new q.conversation_id e m t.room
        (ap (λ (z : Event). z.change) (sym same) ∙ change) in
    consume_claim-Reached w.valid (event_of_new q.conversation_id e m t.room) x.user_id refl tries
      raws v (recipients_of-mem t.room.members x mem) inside
      (subst (λ z. Memᴰ z raws) payload given) only ready done
