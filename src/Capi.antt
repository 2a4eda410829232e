-- ===== src/Capi.antt =====
-- lib/ddcb_capi.c: the access to CAPI cards.
pub mod Ddcb
pub mod Queue
pub mod Threads
pub mod Ring
pub mod Waiting
pub mod Invariant
pub mod Steps
pub mod Reached
pub mod Drain
pub mod Events
pub mod Cards
pub mod Handles
pub mod CardLaws
pub mod Balance
pub mod Choice
pub mod Closing
mod Tests
