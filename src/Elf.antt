-- ===== src/Elf.antt =====
-- kernel/elf64_loader.c: the inspection of an ELF executable and its loading into a buffer.
pub mod Reader
pub mod Segments
pub mod Inspect
pub mod Load
pub mod Sound
pub mod Safety
pub mod Accepted
pub mod Verdict
pub mod Copying
pub mod Loaded
mod Examples
