-- ===== src/Sptps.antt =====
-- SPTPS, the protocol by which two nodes authenticate each other and exchange records
-- (src/sptps.c, src/sptps.h): the replay window, the session, sending, the handshake, receiving.
pub mod Window
pub mod Session
pub mod Send
pub mod Handshake
pub mod Receive
pub mod Safety
pub mod Agreement
pub mod Datagrams
pub mod Tests
