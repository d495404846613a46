-- ===== src/Neigh.antt =====
-- android/src/main/c/ipneigh.c: the neighbour table, printed one line to an entry.
pub mod Address
pub mod Match
pub mod Print
pub mod Line
pub mod Callback
pub mod Show
pub mod Runs
