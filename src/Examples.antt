-- ===== src/Examples.antt =====
-- Concrete instances of the interfaces and runs of the definitions on them.
pub mod Wire
pub mod Codecs
pub mod World
pub mod Codes
pub mod Stores
pub mod Cleaning
pub mod Servers
pub mod Nodes
pub mod Blocks
pub mod WholeFile
pub mod Network
pub mod Workers
pub mod SideBySide
pub mod Api
pub mod Fleet
pub mod Cli
pub mod Life
pub mod NodeLife
