-- ===== src/Compiler.antt =====
-- src/rootwire/bpf_compiler.py: filter expressions compiled to classic BPF.
pub mod Syntax
pub mod Words
pub mod Lexer
pub mod Parser
pub mod Codegen
pub mod Resolve
pub mod Symbolic
pub mod Meaning
pub mod Lowering
pub mod Linking
pub mod Assembly
pub mod Expression
pub mod Canned
pub mod Encoding
pub mod Complement
pub mod Connectives
pub mod Ethertypes
mod Tests
