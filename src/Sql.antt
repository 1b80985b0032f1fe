-- ===== src/Sql.antt =====
-- internal/driver/ttc/sql_namedvalue_parser.go: the bind placeholders of a SQL text, and the values
-- bound to them.
pub mod Names
pub mod Scan
pub mod Bind
pub mod Values
pub mod Equivalence
pub mod Kind
pub mod Classified
pub mod Blocks
pub mod Slots
pub mod BlockValues
mod Runs
mod KindRuns
pub mod Skip
pub mod Details
pub mod Totality
pub mod Text
pub mod Placeholders
