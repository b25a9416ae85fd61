-- ===== src/Utils.antt =====
-- utils.c: hexadecimal and base64 text, and the checks of names.
pub mod Hex
pub mod Base64
pub mod Names
pub mod Tests
