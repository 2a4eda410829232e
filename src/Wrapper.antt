-- ===== src/Wrapper.antt =====
-- lib/wrapper.c: the zlib interface over a hardware and a software implementation.
pub mod Backend
pub mod Inflate
pub mod Switch
pub mod Calls
pub mod Deflate
pub mod DeflateCalls
pub mod DeflateLaws
pub mod DeflateRuns
pub mod Safety
pub mod SwitchLaws
pub mod CallLaws
mod Tests
mod DeflateTests
