-- ===== src/Examples/Devices.antt =====
-- The message of the group on its way to the streams of the members, with a broker that fails at first.
use maim.Common.{
  ℕ, ◌≡◌, ◌⊎◌, refl, sym, subst, some_injective, inl, inr, ◌==◌, Bool, true, false, Option, none,
  some, List, [], ◌∷◌, Memᴰ, ltb, ok, pos, All,
}
use maim.Inbox.Model.{conversation_removed, is_read}
use maim.Inbox.Batch.{batch_insert}
use maim.Sequence
use maim.Inbox.Batch.Once.{IsOnce}
use maim.Fanout.Event.{InboxChangeEvent, payload_of, validate}
use maim.Fanout.Live.{Rows, kind_lives, change_lives, send_all, unread_count}
use maim.Fanout.Consumer.{accept, entry_of, Attempt, World, handle_message_created, consume_claim}
use maim.Fanout.Delivery.{consume_claim-IsOnce}
use maim.Fanout.Reach.{Reached, IsOnly, IsShownIn, handle_stores_first, consume_claim-Reached}
use maim.Fanout.Sending.{event_of_new, send_message-Reached}
use maim.Examples.Talk.{
  silent, greeted, hello, hello_sent, says, world, cut, published, known, member,
}

abbrev rows : Rows
rows = record { thread = greeted; reads = [] }

abbrev attempt : (ℕ → Bool) → Attempt
attempt works = record { rows = rows; now = 6; works = works }

-- The broker refuses the third publication, once.
abbrev tries : List Attempt
tries = attempt (λ n. ltb n 2) ∷ attempt (λ n. true) ∷ []

abbrev empty : World
empty = record { inbox = record { entries = []; streams = []; applied = [] }; sent = [] }

abbrev arrivals : List (Option InboxChangeEvent)
arrivals = payload_of 7 published ∷ []

all_marked : (consume_claim known tries arrivals empty).1 ≡ []
unfolding consume_claim payload_of validate kind_lives batch_insert unread_count Sequence.validate
    Sequence.next send_all change_lives
all_marked = refl

consume_claim-IsOnce_example :
    IsOnce
      (consume_claim known tries arrivals empty).0.inbox.entries
      (consume_claim known tries arrivals empty).0.inbox.applied
consume_claim-IsOnce_example =
    consume_claim-IsOnce known tries arrivals empty (record { unique = tt; recorded = tt })

is_only : (evt : InboxChangeEvent) → IsOnly evt (some evt)
is_only evt other e = inl (sym (some_injective e))

handle_stores_first_example :
    ((handle_message_created known (attempt (λ n. true)) (payload_of 7 published) empty).0.sent
      ≡ [])
    ⊎ ((out : InboxChangeEvent × List ℕ) × (accept known rows (payload_of 7 published) ≡ ok out)
        × All
            (λ u.
              (false ≡ true)
              ⊎ IsShownIn
                  (is_read out.0.kind)
                  (entry_of 0 out.0 u)
                  (handle_message_created known
                    (attempt (λ n. true))
                    (payload_of 7 published)
                    empty).0.inbox.entries)
            out.1)
handle_stores_first_example =
    handle_stores_first known (attempt (λ n. true)) (payload_of 7 published) empty tt

send_message-Reached_example :
    Reached 2
      (event_of_new 7 published hello silent.room)
      (consume_claim known tries arrivals empty).0
unfolding payload_of
send_message-Reached_example =
    send_message-Reached cut (world 50) (some 1) (says 1 11 70) hello silent greeted published
      (member 2 2 false) tries arrivals empty hello_sent refl refl (Memᴰ.tail (Memᴰ.head refl))
      (refl, (refl, tt)) (Memᴰ.head refl) (is_only (event_of_new 7 published hello silent.room), tt)
      (record { unique = tt; held = inl refl }) all_marked

-- A user who is no member any more is told so.
abbrev removal : InboxChangeEvent
removal = record {
  change_id = 600;
  kind = conversation_removed;
  recipient_ids = 9 ∷ [];
  user_id = none;
  last_read_seq = pos 0;
  message_id = none;
  conv_id = 7;
  sender_id = none;
  seq = pos 0;
  publication_sequence = pos 2;
  reply_to_msg_id = none;
}

abbrev more_tries : List Attempt
more_tries = attempt (λ n. ltb n 2) ∷ attempt (λ n. true) ∷ attempt (λ n. true) ∷ []

removal_marked :
    (consume_claim known more_tries (payload_of 7 published ∷ some removal ∷ []) empty).1 ≡ []
unfolding consume_claim payload_of validate kind_lives batch_insert unread_count Sequence.validate
    Sequence.next send_all change_lives
removal_marked = refl

published_is_other : IsOnly removal (payload_of 7 published)
unfolding payload_of
published_is_other other e =
    inr (subst (λ (z : InboxChangeEvent). (z.change_id == 600) ≡ false) (some_injective e) refl)

consume_claim-Reached_example :
    Reached 9 removal
      (consume_claim known more_tries (payload_of 7 published ∷ some removal ∷ []) empty).0
consume_claim-Reached_example =
    consume_claim-Reached known removal 9 refl more_tries
      (payload_of 7 published ∷ some removal ∷ []) empty (Memᴰ.head refl) (refl, (refl, (refl, tt)))
      (Memᴰ.tail (Memᴰ.head refl)) (published_is_other, (is_only removal, tt))
      (record { unique = tt; held = inl refl }) removal_marked
