-- ===== src/Conversations.antt =====
-- The members of a conversation in message-service: app/message-service/internal/logic/conversationservice
-- with internal/repo/conversation_repo.go. A handler is a function of the caller, the request and the
-- rows of the conversation that the request names, and returns the rows that it leaves, or its error:
-- it runs in one transaction that holds the conversation's row.
pub mod Model
pub mod Channel
pub mod Permission
pub mod Members
pub mod Roles
pub mod Publishing
pub mod Steps
pub mod Effects
pub mod Calls
pub mod Removals
pub mod Admissions
pub mod Governance
pub mod Owner
pub mod Orphan
pub mod Publications
pub mod Capacity
pub mod Reads
pub mod Creation
