-- ===== src/Examples/Founders.antt =====
-- Two users who open a private conversation with each other at once.
use maim.Common.{
  ℕ, ◌+◌, ◌≤◌, ◌≡◌, ◌⊎◌, refl, false, none, some, [], ◌∷◌, ◌++◌, ltb, ok, arith, pos, length,
  select,
}
use maim.Sequence
use maim.Conversations.Model.{type_private, upserted}
use maim.Conversations.Channel.{publish_inbox_change, publish_conversation_change}
use maim.Conversations.Permission.{validate_request}
use maim.Conversations.Creation.{
  Entry, CreateConversationReq, CreateContext, create_conversation, founder, is_private_of,
}
use maim.Conversations.Creation.Founding.{IsFounded, create_conversation-IsFounded}
use maim.Conversations.Creation.Pairs.{create_conversation-one_private}

abbrev world : CreateContext
world = record {
  valid = λ i. ltb 0 i;
  now = 5;
  conv_id = some 7;
  member_id = λ u. some (100 + u);
  relation_id = none;
  event_id = λ n. some (500 + n);
  bot_active = λ b. none;
  max_member_count = 500;
}

abbrev asks : ℕ → ℕ → CreateConversationReq
asks user peer = record {
  creator_id = user;
  type = 1;
  member_ids = [];
  peer_user_id = some peer;
  bot_id = none;
}

abbrev opened : Entry
opened = record {
  id = 7;
  room = record {
    conv = some (record {
      type = type_private;
      owner_id = some 1;
      is_muted_all = false;
      member_count = pos 2;
    });
    members = founder 5 101 1 1 ∷ founder 5 102 2 3 ∷ [];
    channel = record {
      current_seq = none;
      max_seq = 0;
      publication_sequence = 1;
      outbox = record { id = 501; publication_sequence = 1; change = upserted (1 ∷ 2 ∷ []) } ∷ [];
    };
  };
  bots = [];
}

first_opens : create_conversation world 1 (asks 1 2) [] [] ≡ ok (7, opened ∷ [])
unfolding create_conversation validate_request publish_inbox_change publish_conversation_change
    Sequence.next
first_opens = refl

-- The second had seen no conversation, and finds the one of the first under the lock.
second_finds :
    create_conversation (record world { conv_id = some 8 }) 2 (asks 2 1) [] (opened ∷ [])
    ≡ ok (7, opened ∷ [])
unfolding create_conversation validate_request publish_inbox_change publish_conversation_change
    Sequence.next
second_finds = refl

create_conversation-IsFounded_example :
    (opened ∷ [] ≡ [])
    ⊎ ((x : Entry) × (opened ∷ [] ≡ [] ++ x ∷ []) × (x.id ≡ 7) × IsFounded world (asks 1 2) x)
create_conversation-IsFounded_example =
    create_conversation-IsFounded world 1 (asks 1 2) [] [] (opened ∷ []) 7 first_opens

create_conversation-one_private_example : length (select (is_private_of 1 2) (opened ∷ [])) ≤ 1
create_conversation-one_private_example =
    create_conversation-one_private (record world { conv_id = some 8 }) 2 (asks 2 1) []
      (opened ∷ []) (opened ∷ []) 7 1 2 (λ e. omega (arith, e)) second_finds (omega arith)
