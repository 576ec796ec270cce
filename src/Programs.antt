-- ===== src/Programs.antt =====
-- Programs over the library: the examples of its repository (examples/).
pub mod Maze
pub mod Reversal
pub mod Keys
pub mod OneMap
