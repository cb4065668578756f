-- ===== src/Program.antt =====
-- The start of the program in main/main.cpp: the deployment of the converted device, `InitServer`, the
-- work queue of the Matter thread and `app_main`.
pub mod Flow
pub mod Converter
pub mod Declarations
pub mod Custom
pub mod Attributes
pub mod Deploy
pub mod Mappings
pub mod Sources
pub mod Parts
pub mod Success
pub mod Works
pub mod Writing
pub mod Boot
