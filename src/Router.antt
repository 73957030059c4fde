-- ===== src/Router.antt =====
-- The routing decision of pkg/core/router.go: `true` sends a connection through the proxy, `false`
-- connects directly. `State` has the router and `NewRouter`, `Select` the decision and its cache,
-- `Update` the download of the country database.
pub mod State
pub mod Select
pub mod Update
pub mod History
