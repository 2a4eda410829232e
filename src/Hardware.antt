-- ===== src/Hardware.antt =====
-- lib/hardware.c: the hardware backend of the zlib wrapper.
pub mod Buffers
pub mod Deflate
pub mod BufferLaws
pub mod RoundLaws
pub mod DeflateLaws
pub mod EndLaws
pub mod Setup
pub mod SetupLaws
pub mod DoneLaws
pub mod StreamEnd
pub mod SearchLaws
pub mod StreamEndLaws
mod Tests
