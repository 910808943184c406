-- ===== src/Runtime.antt =====
-- The run of a compiled template: values, what an expression does to them, and the stack machine.
pub mod Data
pub mod Value
pub mod Filters
pub mod Resolver
pub mod Machine
pub mod Meaning
pub mod Runs
pub mod Performs
pub mod Effects
pub mod Jumps
pub mod Compiles
pub mod Emitted
pub mod Patched
pub mod Equations
pub mod Operators
pub mod Correct
pub mod Lone
pub mod Evaluation
pub mod Single
