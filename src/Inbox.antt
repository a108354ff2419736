-- ===== src/Inbox.antt =====
-- The account inbox of message-service: app/message-service/internal/repo/inbox_repo.go and the
-- rows of app/message-service/internal/model/message.go. Each user has a stream of positions, one
-- for each change that the user's devices must see.
pub mod Model
pub mod Batch
pub mod Page
pub mod Prune
