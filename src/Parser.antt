-- ===== src/Parser.antt =====
-- lib/parser/dockerfile: the Dockerfile parser.
pub mod Runes
pub mod SplitArgs
pub mod KeyValues
pub mod Variables
pub mod Directive
pub mod Line
pub mod Construct
pub mod Healthcheck
pub mod Dispatch
pub mod Update
pub mod File
