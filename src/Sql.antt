-- ===== src/Sql.antt =====
-- sql_types: the data types and values of SQL, the encoding of values as keys, and the conditions.
pub mod Int64
pub mod Types
pub mod Like
pub mod Key
pub mod KeyRange
pub mod Numbers
pub mod Temporal
pub mod Conditions
pub mod Candidates
pub mod Rewriter
pub mod Truth
mod Tests
mod RangeTests
mod PlanTests
