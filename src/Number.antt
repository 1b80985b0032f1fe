-- ===== src/Number.antt =====
-- internal/driver/ttc/converters/number.go: the Oracle NUMBER wire format.
pub mod Decimal
pub mod Wire
pub mod Convert
pub mod Pairs
pub mod Trim
pub mod Reading
pub mod RoundTrip
pub mod Equivalence
pub mod Packing
pub mod Bounds
mod Runs
