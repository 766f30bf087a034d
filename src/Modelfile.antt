-- ===== src/Modelfile.antt =====
-- pkg/modelfile: the Modelfile's commands, syntax tree, parser, printer and generator.
pub mod Command
pub mod Ast
pub mod Lexical
pub mod Args
pub mod Parser
pub mod HashSet
pub mod Record
pub mod File
pub mod Patterns
pub mod Content
pub mod Glob
pub mod FileType
pub mod PathFilter
pub mod Workspace
mod Samples
