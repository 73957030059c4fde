-- ===== src/Config.antt =====
-- The configuration, pkg/config: what the file says (`Toml`), the checks of the struct tags
-- (`Validate`), the translation into what the program uses (`Init`, `Database`), and the functions that
-- load and save it (`Load`); `Logger` is what the logger is set to.
pub mod Toml
pub mod Validate
pub mod Init
pub mod Database
pub mod Load
pub mod Logger
