-- ===== src/Repository.antt =====
-- The repositories of pages (include/libnavajo/WebRepository.hh): files of a directory, and pages that
-- are made on request.
pub mod Local
pub mod Dynamic
pub mod Precompiled
mod Tests
