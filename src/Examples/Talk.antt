-- ===== src/Examples/Talk.antt =====
-- A group of three, one of them muted, and what its members send, edit, recall and delete.
use maim.Common.{
  ℕ, ◌+◌, ◌≡◌, ◌≢◌, refl, Bool, true, false, Option, none, some, List, [], ◌∷◌, Memᴰ, ltb, Result,
  ok, err, arith, pos, some_injective, if◌then◌else◌, ◌==◌, ◌*◌, ◌⊎◌,
}
use maim.Conversations.Model.{Room, Member, type_group, Event, message_changed}
use maim.Conversations.Channel.{next_seq, publish_inbox_change}
use maim.Inbox.Model.{message_new}
use maim.Messages.Json.{Json, Rat, number, jsonb, object, string, field, no_fields, same_submission}
use maim.Messages.Model.{
  Message, MessageError, normal, edited, recalled, Thread, file_service, content_conflict,
  no_preview, text_preview, recalled_preview, message_preview,
}
use maim.Messages.Permission.{
  check_send_permission, publish_message, shown, latest_of, lock_mutable_message, tail_after,
  require_caller,
}
use maim.Sequence
use maim.Messages.Send.{
  SendContext, SendContent, SendMessageReq, text, send_message, validate_send_content, check_sender,
}
use maim.Messages.Calls.{Call, Target, sends, edits, recalls, deletes, serve}
use maim.Messages.Invariant.{IsThread, serve-IsThread}
use maim.Messages.Final.{serve_spares_others, recall-IsFinal, OnlyAs}
use maim.Messages.Submissions.{SameValue, KeepsValues, IsDecoded}
use maim.Messages.Resend.{send_message-again, send_message-conflict}
use maim.Messages.Admitted.{MaySend, send_message-MaySend}

abbrev pub known : ℕ → Bool
known i = ltb 0 i

abbrev pub member : ℕ → ℕ → Bool → Member
member user role muted = record {
  id = 100 + user;
  user_id = user;
  role = role;
  alias = 0;
  is_muted = muted;
  mute_until = pos 0;
  joined_at = 5;
}

abbrev pub group : Room
group = record {
  conv =
      some (record {
        type = type_group;
        owner_id = some 1;
        is_muted_all = false;
        member_count = pos 3;
      });
  members = member 1 1 false ∷ member 2 2 false ∷ member 3 3 true ∷ [];
  channel = record { current_seq = none; max_seq = 0; publication_sequence = 0; outbox = [] };
}

abbrev pub silent : Thread
silent = record {
  room = group;
  messages = [];
  deletions = [];
  last_message_id = none;
  last_message_preview = no_preview;
}

abbrev pub cut : ℕ → ℕ
cut t = t

-- The text and the number of a content, as its marshalled form.
abbrev marshal : Json → ℕ
marshal (object (field key (string t) (field k (number n) no_fields))) = t * 1000 + n
marshal _ = 0

-- The lexeme 12 stands for 1e2, which JSONB prints as 100; any other is the number itself.
abbrev printed : ℕ → ℕ
printed n = if n == 12 then 100 else n

abbrev rational : ℕ → Rat
rational n = record { negative = false; numerator = printed n; denominator = 1 }

abbrev pub world : ℕ → SendContext
world id = record {
  valid = known;
  valid_key = known;
  now = 5;
  new_id = some id;
  event_id = λ n. some (500 + n);
  marshal = marshal;
  parse = λ n. some (rational n);
  rewrite = printed;
  download = λ b. err file_service;
  blocks = [];
}

abbrev text_content : ℕ → Json
text_content t = object (field 1 (string t) (field 2 (number 12) no_fields))

-- As it is stored.
abbrev stored_content : ℕ → Json
stored_content t = object (field 1 (string t) (field 2 (number 100) no_fields))

abbrev said : ℕ → SendContent
said t = record { kind = text; ids = []; content = text_content t; submission = text_content t }

abbrev pub says : ℕ → ℕ → ℕ → SendMessageReq
says user key t = record {
  conversation_id = 7;
  from_user_id = user;
  client_msg_id = key;
  reply_to_id = none;
  type = 1;
  body = some (said t);
}

abbrev pub hello : Message
hello = record {
  id = 50;
  sender_id = some 1;
  client_msg_id = some 11;
  seq = 1;
  msg_type = 1;
  content = text_content 70;
  submission_content = stored_content 70;
  reply_to_msg_id = none;
  status = normal;
  edit_history = [];
  edit_count = 0;
  created_at = 5;
}

abbrev pub published : Event
published = record {
  id = 501;
  publication_sequence = 1;
  change = message_changed (record {
    kind = message_new;
    message_id = 50;
    user_id = none;
    seq = 1;
    sender_id = some 1;
    reply_to_msg_id = none;
    recipient_ids = 1 ∷ 2 ∷ 3 ∷ [];
  });
}

abbrev pub greeted : Thread
greeted = record {
  room = record group {
    channel = record {
      current_seq = some 1;
      max_seq = 1;
      publication_sequence = 1;
      outbox = published ∷ [];
    };
  };
  messages = hello ∷ [];
  deletions = [];
  last_message_id = some 50;
  last_message_preview = text_preview 70;
}

pub hello_sent : send_message cut (world 50) (some 1) (says 1 11 70) silent ≡ ok (hello, greeted)
unfolding send_message check_send_permission publish_message publish_inbox_change next_seq
    message_preview same_submission jsonb Sequence.next
hello_sent = refl

silent-IsThread : IsThread cut silent
unfolding shown latest_of
silent-IsThread = record {
  unique = tt;
  submissions = tt;
  ascends = tt;
  bounded = tt;
  counters = refl;
  tail = refl;
  history = tt;
  channel = record { ascends = tt; bounded = tt; in_range = omega arith };
}

abbrev at : ℕ → ℕ → Target
at user id = record {
  world = record {
    valid = known;
    now = 6;
    event_id = λ n. some (500 + n);
    edit_window = 100;
    recall_window = 100;
  };
  caller = some user;
  message_id = id;
  user = user;
  conversation = none;
  conv_id = 7;
  read = some (record hello { id = id; sender_id = some user });
}

-- The second member speaks, edits and recalls; the muted one tries.
abbrev traffic : List Call
traffic =
    sends (world 50) (some 1) (says 1 11 70)
    ∷ sends (world 51) (some 2) (says 2 12 71)
    ∷ sends (world 52) (some 3) (says 3 13 72)
    ∷ edits (at 2 51) (some ([], text_content 73))
    ∷ recalls (at 2 51)
    ∷ edits (at 2 51) (some ([], text_content 74))
    ∷ deletes (at 1 50) false
    ∷ deletes (at 2 51) true
    ∷ []

serve-IsThread_example : IsThread cut (serve cut traffic silent)
serve-IsThread_example = serve-IsThread cut traffic silent silent-IsThread

-- Later on the message is edited, and only its sender is left.
abbrev hello_edited : Message
hello_edited = record hello { content = text_content 75; status = edited }

abbrev moved_on : Thread
moved_on = record greeted {
  room = record greeted.room { members = member 1 1 false ∷ [] };
  messages = hello_edited ∷ [];
}

printed-KeepsValues : KeepsValues (λ n. some (rational n)) printed
printed-KeepsValues n r h = (rational (printed n), rational n, refl, refl, refl, ground arith)

text_content-IsDecoded : IsDecoded (λ n. some (rational n)) (text_content 70)
unfolding IsDecoded
text_content-IsDecoded = ((refl, (refl, tt)), (tt, ((rational 12, refl), tt)))

send_message-again_example :
    send_message cut
      (record (world 50) {
        now = 900;
        blocks = [];
        new_id = none;
        event_id = λ n. none;
        download = λ b. err file_service;
      })
      (some 1)
      (says 1 11 70)
      moved_on
    ≡ ok (hello_edited, moved_on)
unfolding check_send_permission check_sender validate_send_content
send_message-again_example =
    send_message-again cut (world 50) (some 1) (says 1 11 70) hello silent greeted 900 [] none
      (λ n. none) (λ b. err file_service) moved_on hello_edited (said 70) hello_sent refl
      printed-KeepsValues text_content-IsDecoded refl refl

-- Under the key of the first, with another text.
abbrev answer_to_other : Result MessageError (Message × Thread)
answer_to_other =
    send_message cut
      (record (world 50) {
        now = 900;
        blocks = [];
        new_id = none;
        event_id = λ n. none;
        download = λ b. err file_service;
      })
      (some 1) (record (says 1 11 70) { type = 1; body = some (said 71) }) moved_on

-- The text is compared with the stored one.
abbrev IsSameText : Type 0
IsSameText =
    (stored_content 70 ≡ text_content 71)
    ⊎ SameValue (λ n. some (rational n)) (stored_content 70) (text_content 71)

send_message-conflict_example :
    (IsSameText × (answer_to_other ≡ ok (hello_edited, moved_on)))
    ⊎ ((IsSameText → ⊥) × (answer_to_other ≡ err content_conflict))
unfolding check_send_permission check_sender validate_send_content
send_message-conflict_example =
    send_message-conflict cut (world 50) (some 1) (says 1 11 70) hello silent greeted 900 [] none
      (λ n. none) (λ b. err file_service) moved_on hello_edited (said 71) 1 hello_sent refl refl
      (λ e. absurd (apart e))
  where
    apart : ◌≡◌ {A = ℕ} 70100 71012 → ⊥
    apart e = omega (arith, e)

send_message-MaySend_example : (◌≡◌ {A = Option ℕ} (some 1) (some 1)) × MaySend 5 1 [] group
send_message-MaySend_example =
    send_message-MaySend cut (world 50) (some 1) (says 1 11 70) hello silent greeted hello_sent

greeted-IsThread : IsThread cut greeted
unfolding shown latest_of message_preview
greeted-IsThread = record {
  unique = (refl, tt);
  submissions = (tt, tt);
  ascends = (tt, tt);
  bounded = (omega arith, tt);
  counters = refl;
  tail = refl;
  history = (refl, tt);
  channel = record { ascends = (tt, tt); bounded = (omega arith, tt); in_range = omega arith };
}

-- Another member tries to change the message of the first, also in the name of the first.
abbrev meddling : List Call
meddling =
    edits (at 2 50) (some ([], text_content 75))
    ∷ recalls (at 2 50)
    ∷ deletes (at 2 50) true
    ∷ deletes (at 2 50) false
    ∷ recalls (record (at 1 50) { caller = some 2 })
    ∷ deletes (record (at 1 50) { caller = none }) true
    ∷ []

serve_spares_others_example : Memᴰ hello (serve cut meddling greeted).messages
serve_spares_others_example =
    serve_spares_others cut hello meddling greeted
      (other, (other, (other, (other, (other, (nobody, tt)))))) greeted-IsThread (Memᴰ.head refl)
  where
    other : (u : ℕ) → some 2 ≡ some u → hello.sender_id ≢ some u
    other u h k = let e = some_injective h in let f = some_injective k in omega (arith, e, f)

    nobody : (u : ℕ) → none ≡ some u → hello.sender_id ≢ some u
    nobody u h k = cc

abbrev withdrawn : Message
withdrawn = record hello { status = recalled }

abbrev after_recall : Thread
after_recall = record greeted { messages = withdrawn ∷ []; last_message_preview = recalled_preview }

after_recall-IsThread : IsThread cut after_recall
unfolding shown latest_of
after_recall-IsThread = record {
  unique = (refl, tt);
  submissions = (tt, tt);
  ascends = (tt, tt);
  bounded = (omega arith, tt);
  counters = refl;
  tail = refl;
  history = (refl, tt);
  channel = record { ascends = (tt, tt); bounded = (omega arith, tt); in_range = omega arith };
}

recall-IsFinal_example : OnlyAs withdrawn (
    serve cut
      (edits (at 1 50) (some ([], text_content 76))
        ∷ recalls (at 1 50)
        ∷ deletes (at 1 50) true
        ∷ [])
      after_recall)
recall-IsFinal_example =
    recall-IsFinal cut withdrawn
      (edits (at 1 50) (some ([], text_content 76))
        ∷ recalls (at 1 50)
        ∷ deletes (at 1 50) true
        ∷ [])
      after_recall refl after_recall-IsThread (Memᴰ.head refl)

-- The deleted message is not the tail any more.
traffic_test : (serve cut traffic silent).last_message_id ≡ some 50
unfolding serve lock_mutable_message check_send_permission publish_message publish_inbox_change
    next_seq message_preview same_submission tail_after require_caller Sequence.next
traffic_test = refl
