-- ===== src/Deflate.antt =====
-- lib/deflate.c: compression. `Stream` has the state, `Header`, `Ending` and `Results` the helpers,
-- `Run` zedc_deflate and the entry points; the other children prove.
pub mod Stream
pub mod Header
pub mod Ending
pub mod Results
pub mod Run
pub mod Setup
pub mod OutLaws
pub mod HeaderLaws
pub mod HeaderRoom
pub mod EndingLaws
pub mod ResultsLaws
pub mod Accounts
pub mod RunLaws
pub mod EndLaws
pub mod Tests
