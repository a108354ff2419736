-- ===== src/Friends.antt =====
-- Contacts of user-service: app/user-service/internal/logic/friend, its repositories in
-- internal/repo and its rows in internal/model. A handler of the package is a function of the caller,
-- the request and the tables, and returns the tables that it leaves, or the error of its early return.
pub mod Model
pub mod Caller
pub mod Repo
pub mod Requests
pub mod Relations
pub mod Groups
pub mod Lists
pub mod Views
pub mod Effects
pub mod Invariant
pub mod Handlers
pub mod Status
pub mod Blocking
pub mod Pages
