-- ===== src/Ip.antt =====
-- Addresses: what the program uses of the standard library's `net.IP` and `net.IPNet`, and
-- `isReservedIP` with its table, of pkg/core/router.go.
pub mod Address
pub mod Reserved
