-- ===== src/Compose.antt =====
-- Operators connected with each other, as a program of the library connects them: the output of the
-- one, forwarded, is the input of the other.
pub mod BatchFlatten
pub mod SplitMerge
pub mod Parallel
