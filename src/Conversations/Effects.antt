-- ===== src/Conversations/Effects.antt =====
-- The steps of the handlers.
pub mod OfMembers
pub mod OfRoles
