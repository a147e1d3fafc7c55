-- ===== src/Interpreter.antt =====
-- internal/interpreter
pub mod BoundedWriter
pub mod Result
pub mod Message
pub mod Executor
pub mod Sweep
pub mod Shells
