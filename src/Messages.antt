-- ===== src/Messages.antt =====
-- The messages of a conversation in message-service: app/message-service/internal/logic/messageservice
-- with internal/repo/message_repo.go, CheckSendPermission and TouchLastMessage of
-- internal/repo/conversation_repo.go, and PublishInboxChange of internal/svc/inbox_change.go. A handler
-- runs in one transaction that holds the conversation's row.
pub mod Json
pub mod Model
pub mod Permission
pub mod Send
pub mod Change
pub mod Steps
pub mod Effects
pub mod Calls
pub mod Invariant
pub mod Final
pub mod Submissions
pub mod Resend
pub mod Admitted
