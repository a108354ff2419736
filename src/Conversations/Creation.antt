-- ===== src/Conversations/Creation.antt =====
-- createconversationlogic.go with FindPrivateConv and FindPrivateBotConv of conversation_repo.go. The
-- names, and the reading of the conversation for the response, are left out.
pub mod Founding
pub mod Pairs
use maim.Common.{
  ℕ, Bool, true, false, ◌&&◌, ◌||◌, not, Option, none, some, List, [], ◌∷◌, ◌++◌, Result, ok, err,
  ◌>>=◌, ◌>>◌, guard, or_fail, if◌then◌else◌, ◌==◌, ltb, leb, is_some, eq_opt, find, exists, length,
  map, sort_by, pos,
}
use maim.Conversations.Model.{
  ConvType, type_private, type_group, Conversation, Member, Channel, Room, ConvError, invalid_param,
  max_members, identity_error, insufficient_permissions, member_add_failed, invalid_conv_type,
  owner_role, member_role, by_user,
}
use maim.Conversations.Channel.{publish_conversation_change, recipients_of}
use maim.Conversations.Permission.{all_valid, validate_request}
use maim.Conversations.Members.{seen_in}

pub record ConvBot : Type 0 where
  pub id : ℕ
  pub bot_id : ℕ
  pub added_by : ℕ
  pub is_revoked : Bool

-- A conversation by its identity, with its bots.
pub record Entry : Type 0 where
  pub id : ℕ
  pub room : Room
  pub bots : List ConvBot

pub record CreateConversationReq : Type 0 where
  pub creator_id : ℕ
  pub type : ℕ
  pub member_ids : List ℕ
  pub peer_user_id : Option ℕ
  pub bot_id : Option ℕ

abbrev pub given : Option ℕ → List ℕ
given none = []
given (some i) = i ∷ []

-- The type, and what each type asks of the request.
unfoldable pub check_type : CreateConversationReq → Result ConvError ConvType
check_type q =
    if q.type == 1
    then (do
      guard (not (is_some q.peer_user_id) || not (is_some q.bot_id)) invalid_param
      guard (is_some q.peer_user_id || is_some q.bot_id) invalid_param
      guard (not (eq_opt q.peer_user_id q.creator_id)) invalid_param
      guard (length q.member_ids == 0) invalid_param
      ok type_private)
    else if q.type == 2
    then (do
      guard (not (is_some q.bot_id) && not (is_some q.peer_user_id)) invalid_param
      ok type_group)
    else err invalid_conv_type

abbrev pub has_private_type : Room → Bool
has_private_type r = elim r.conv [
  | none ↦ false
  | some c ↦ elim c.type [ type_private ↦ true | _ ↦ false ]
]

-- The joins of FindPrivateConv, and of FindPrivateBotConv.
abbrev pub is_private_of : ℕ → ℕ → Entry → Bool
is_private_of a b x =
    has_private_type x.room
    && exists (by_user a) x.room.members
    && exists (by_user b) x.room.members

abbrev pub is_private_with_bot : ℕ → ℕ → Entry → Bool
is_private_with_bot user bot x =
    has_private_type x.room
    && exists (by_user user) x.room.members
    && exists (λ (b : ConvBot). b.bot_id == bot && not b.is_revoked) x.bots

-- First orders by the primary key. Without a bot and a peer the request has been refused.
unfoldable pub find_private : CreateConversationReq → List Entry → Option Entry
find_private q xs = elim q.bot_id [
  | some bot ↦ find (is_private_with_bot q.creator_id bot) (sort_by (λ (x : Entry). x.id) xs)
  | none ↦ elim q.peer_user_id [
    | some peer ↦ find (is_private_of q.creator_id peer) (sort_by (λ (x : Entry). x.id) xs)
    | none ↦ none
  ]
]

abbrev pub founder : ℕ → ℕ → ℕ → ℕ → Member
founder now id user role = record {
  id = id;
  user_id = user;
  role = role;
  alias = 0;
  is_muted = false;
  mute_until = pos 0;
  joined_at = now;
}

-- addMember, for one user after another: each user once. `new_id` is what identity.New returns for the
-- row of a user.
unfoldable pub add_founders :
    (ℕ → Option ℕ) → ℕ → ℕ → List ℕ → List ℕ → Result ConvError (List Member)
add_founders new_id now role seen [] = ok []
add_founders new_id now role seen (u ∷ us) = elim (seen_in seen u) [
  | true ↦ add_founders new_id now role seen us
  | false ↦ do
    id ← or_fail (new_id u) identity_error
    rest ← add_founders new_id now role (u ∷ seen) us
    ok (founder now id u role ∷ rest)
]

-- The creator as the owner, the peer and the others as members.
unfoldable pub founders :
    (ℕ → Option ℕ) → ℕ → CreateConversationReq → Result ConvError (List Member)
unfolding add_founders
founders new_id now q = do
  id ← or_fail (new_id q.creator_id) identity_error
  rest ←
      add_founders new_id now member_role (q.creator_id ∷ []) (given q.peer_user_id ++ q.member_ids)
  ok (founder now id q.creator_id owner_role ∷ rest)

-- The world of a call: identity.Validate, the clock, the results of identity.New for the conversation,
-- for the rows of the members, for the relation with the bot and for the event, whether GetBot finds
-- an active bot, and MaxMemberCount.
pub record CreateContext : Type 0 where
  pub valid : ℕ → Bool
  pub now : ℕ
  pub conv_id : Option ℕ
  pub member_id : ℕ → Option ℕ
  pub relation_id : Option ℕ
  pub event_id : ℕ → Option ℕ
  pub bot_active : ℕ → Option Bool
  pub max_member_count : ℕ

unfoldable pub check_bot : CreateContext → Option ℕ → Result ConvError (Unit {0})
check_bot w none = ok tt
check_bot w (some bot) = do
  active ← or_fail (w.bot_active bot) member_add_failed
  guard active insufficient_permissions

unfoldable pub new_bots : CreateContext → CreateConversationReq → Result ConvError (List ConvBot)
new_bots w q = elim q.bot_id [
  | none ↦ ok []
  | some bot ↦ do
    id ← or_fail w.relation_id identity_error
    ok (record { id = id; bot_id = bot; added_by = q.creator_id; is_revoked = false } ∷ [])
]

-- The rows of a new conversation, and its first event. The primary key is checked on insertion.
unfoldable pub insert_conversation :
    CreateContext
    → CreateConversationReq
    → ConvType
    → ℕ
    → List Member
    → List ConvBot
    → List Entry
    → Result ConvError (ℕ × List Entry)
insert_conversation w q type id ms bots xs = do
  guard (not (ltb 0 w.max_member_count) || leb (length ms) w.max_member_count) max_members
  guard (not (exists (λ (x : Entry). x.id == id) xs)) identity_error
  ch ←
      publish_conversation_change w.event_id (recipients_of ms) []
        (record { current_seq = none; max_seq = 0; publication_sequence = 0; outbox = [] })
  ok (
    id,
    xs
        ++ record {
          id = id;
          room = record {
            conv = some (record {
              type = type;
              owner_id = some q.creator_id;
              is_muted_all = false;
              member_count = pos (length ms);
            });
            members = ms;
            channel = ch;
          };
          bots = bots;
        }
          ∷ [],
  )

abbrev pub is_private_type : ConvType → Bool
is_private_type type_private = true
is_private_type _ = false

-- What is there when the handler looks first, and when it holds the lock of the pair. The identity of
-- the conversation that is answered, and the conversations after the call.
unfoldable pub create_conversation :
    CreateContext
    → ℕ
    → CreateConversationReq
    → List Entry
    → List Entry
    → Result ConvError (ℕ × List Entry)
unfolding check_bot check_type find_private founders new_bots insert_conversation
create_conversation w caller q before xs = do
  validate_request w.valid caller q.creator_id q.member_ids
  guard (all_valid w.valid (given q.peer_user_id)) invalid_param
  guard (all_valid w.valid (given q.bot_id)) invalid_param
  check_bot w q.bot_id
  type ← check_type q
  elim (if is_private_type type then find_private q before else none) [
    | some x ↦ ok (x.id, xs)
    | none ↦ do
      id ← or_fail w.conv_id identity_error
      ms ← founders w.member_id w.now q
      bots ← new_bots w q
      elim (if is_private_type type then find_private q xs else none) [
        | some x ↦ ok (x.id, xs)
        | none ↦ insert_conversation w q type id ms bots xs
      ]
  ]
