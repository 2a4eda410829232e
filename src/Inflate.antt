-- ===== src/Inflate.antt =====
-- lib/inflate.c: decompression.
pub mod Header
pub mod HeaderLaws
pub mod HeaderWalk
pub mod HeaderParts
pub mod HeaderExtra
pub mod HeaderDown
pub mod HeaderTotal
pub mod HeaderTrip
pub mod ZlibTrip
pub mod Stream
pub mod Output
pub mod Trailer
pub mod Setup
pub mod RemHeader
pub mod Asv
pub mod Scratch
pub mod Run
pub mod Books
pub mod Accounts
pub mod RunLaws
pub mod TrailerEnd
pub mod TailLaws
pub mod EndLaws
pub mod Kept
pub mod ScratchLaws
pub mod AlignLaws
pub mod Untouched
pub mod TrailerLaws
pub mod TrailerChecks
pub mod Pending
mod Tests
pub mod RunTests
