-- ===== src/Conversations/Model.antt =====
-- The rows of one conversation. All members are users, with an identity, since migration 003; a role
-- is the number of the protocol: 1 for the owner, 2 for an admin, 3 for a member.
use maim.Common.{ℕ, Bool, true, false, Option, List, ◌==◌, ℤ}
use maim.Inbox.Model.{InboxKind}

pub data ConvType : Type 0 where
  type_private type_group type_system : ConvType

abbrev pub is_system : ConvType → Bool
is_system type_system = true
is_system _ = false

pub record Conversation : Type 0 where
  pub type : ConvType
  pub owner_id : Option ℕ
  pub is_muted_all : Bool
  pub member_count : ℤ

pub record Member : Type 0 where
  pub id : ℕ
  pub user_id : ℕ
  pub role : ℕ
  pub alias : ℕ
  pub is_muted : Bool
  pub mute_until : ℤ
  pub joined_at : ℕ

-- The payload of a change of a message, its content aside.
pub record MessageChange : Type 0 where
  pub kind : InboxKind
  pub message_id : ℕ
  pub user_id : Option ℕ
  pub sender_id : Option ℕ
  pub seq : ℕ
  pub reply_to_msg_id : Option ℕ
  pub recipient_ids : List ℕ

-- The payload of an event, by its kind.
pub data Change : Type 0 where
  -- The recipients of conversation_upsert and of conversation_removed.
  upserted removed : List ℕ → Change
  -- The user of read_updated, and the position.
  read_updated : ℕ → ℕ → Change
  -- The user of a bot activity, and its sequence in the conversation.
  member_joined member_left : ℕ → ℕ → Change
  message_changed : MessageChange → Change

pub record Event : Type 0 where
  pub id : ℕ
  pub publication_sequence : ℕ
  pub change : Change

-- What a conversation publishes: its row of the sequences, the two sequence columns of its own row,
-- and its rows of the outbox, oldest first.
pub record Channel : Type 0 where
  pub current_seq : Option ℕ
  pub max_seq : ℕ
  pub publication_sequence : ℕ
  pub outbox : List Event

-- Without a row, the conversation is deleted. The other columns of the row are never read here.
pub record Room : Type 0 where
  pub conv : Option Conversation
  pub members : List Member
  pub channel : Channel

pub data ConvError : Type 0 where
  invalid_param unauthorized forbidden record_not_found not_a_member : ConvError
  insufficient_permissions target_not_member operator_not_member higher_role : ConvError
  member_not_found ownership_change max_members sequence_exhausted identity_error : ConvError
  member_add_failed invalid_conv_type : ConvError

abbrev pub owner_role : ℕ
owner_role = 1

abbrev pub admin_role : ℕ
admin_role = 2

abbrev pub member_role : ℕ
member_role = 3

-- WHERE conv_id = ? AND user_id = ?.
abbrev pub by_user : ℕ → Member → Bool
by_user user m = m.user_id == user
