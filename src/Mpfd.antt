-- ===== src/Mpfd.antt =====
-- The multipart/form-data parser (src/MPFDParser, include/MPFDParser).
pub mod Exceptions
pub mod TempFiles
pub mod Field
pub mod Headers
pub mod Parser
mod Tests
