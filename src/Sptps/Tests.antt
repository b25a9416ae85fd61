-- ===== src/Sptps/Tests.antt =====
-- The theorems on src/sptps.c at concrete windows and at sessions over a toy library.
mod Toy
mod Windows
mod Datagrams
mod Sessions
