-- ===== src/Bindings.antt =====
-- What other programs call: `Desktop` is cmd/desktop/core.go, `Mobile` and `Udp` are the two files of
-- cmd/relaybaton_mobile.
pub mod Desktop
pub mod Mobile
pub mod Udp
