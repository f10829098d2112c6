-- ===== src/Rewrite.antt =====
-- src/n/fl_rewrite.c: what is done to the tree of a node before its instruction runs. Built is how
-- the C code takes trees apart and makes new ones, Heads and Operators are the passes, Passes puts
-- them together; Shapes is about their results.
pub mod Built
pub mod Heads
pub mod Operators
pub mod Passes
pub mod Shapes
pub mod Ends
pub mod Dangling
pub mod Plain
pub mod Tests
