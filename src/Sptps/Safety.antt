-- ===== src/Sptps/Safety.antt =====
-- What an SPTPS session of src/sptps.c holds between two calls: which pointers are set in which
-- state, and the bounds of the input buffer. Ready and Stream state it; Start, Send, Handshake,
-- Receive and Calls are about the functions of src/sptps.c that start from it. A call that fails
-- can leave a session for which it does not hold: after `send_data` has failed in `receive_sig`,
-- `ecdh` is a null pointer and the state still that of a session that waits for a signature.
pub mod Ready
pub mod Send
pub mod Handshake
pub mod Receive
pub mod Stream
pub mod Start
pub mod Calls
pub mod Delivery
