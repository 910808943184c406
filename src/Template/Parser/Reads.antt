-- ===== src/Template/Parser/Reads.antt =====
-- Rules for parsers: how many tokens are read, what holds of the result, and that no loop runs out
-- of fuel.
mod Composed
mod Matched
pub use Composed.*
pub use Matched.*
