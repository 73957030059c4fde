-- ===== src/Web.antt =====
-- The web interface: the handlers of pkg/core/server_web.go over the rows of pkg/model and the
-- messages of pkg/webapi. `Rows` and `Views` have both, `Database` the interface of the database, `Exchange` what
-- a handler reads and writes, and `Routes` the table of routes of pkg/core/server.go.
pub mod Rows
pub mod Views
pub mod Database
pub mod Exchange
pub mod Accounts
pub mod Users
pub mod Plans
pub mod Notices
pub mod Pages
pub mod Routes
