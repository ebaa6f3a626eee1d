-- ===== src/Order.antt =====
-- Comparisons into `Ordering` that are total preorders, and the ways to build one from others: the
-- independent description of the version orders of package registry.
pub mod Base
pub mod Lexicographic
