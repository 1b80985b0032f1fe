-- ===== src/Interval.antt =====
-- internal/driver/ttc/converters/interval.go.
pub mod MonthsBytes
pub mod DayToSecondText
pub mod DaysWritten
pub mod MonthsText
pub mod Tokens
pub mod YearToMonth
pub mod DayToSecond
pub mod Digits
pub mod Fields
pub mod MonthsRoundTrip
pub mod Magnitude
pub mod Fractions
pub mod DaysText
pub mod DaysEncoding
pub mod DaysRoundTrip
mod Runs
