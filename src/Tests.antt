-- ===== src/Tests.antt =====
-- Runs of the program on small inputs, and the theorems at such inputs.
mod Inputs
mod Templates
mod Bindings
mod Debugging
mod Strings
mod Compiled
mod Configurations
mod Expressions
mod Values
