-- ===== src/Tools.antt =====
-- Helpers of src/tools.cpp.
pub mod Text
pub mod Codes
pub mod Trim
mod Examples
