-- ===== src/Models.antt =====
-- internal/models: the records that cross agent boundaries. A Go `string` type with named constants
-- (Source, Severity, RunKind, ...) is a string here too, since any text can be decoded into it.
-- An `int` is a natural number where the code only counts with it. A time is the number of
-- nanoseconds since Go's zero time, in UTC. `R` is the type of `float64`.
pub mod Labels
pub mod Brand
pub mod Mention
pub mod Alert
pub mod Topic
pub mod Run
pub mod Wire
