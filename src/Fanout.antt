-- ===== src/Fanout.antt =====
-- The fanout consumer of message-service: app/message-service/internal/consumer/inbox_writer.go and
-- fanout.go, with InboxChangeEvent of pkg/event/event.go and UnreadCounts of conversation_repo.go. It
-- reads the published changes of a conversation in their order, stores them in the streams of their
-- users, and then tells the devices that are online.
pub mod Event
pub mod Live
pub mod Consumer
pub mod Delivery
pub mod Record
pub mod Reach
pub mod Sending
