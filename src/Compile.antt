-- ===== src/Compile.antt =====
-- internal/bytecode/bytecode.go: the compiler from syntax trees to bytecode.
pub mod Monad
pub mod Emit
pub mod Table
pub mod Grants
pub mod Server
pub mod Forms
pub mod Effects
pub mod Children
pub mod Switch
pub mod Lowered
pub mod Fits
pub mod Closed
pub mod Ensures
pub mod FormsLowered
pub mod EffectsLowered
pub mod ChildrenLowered
pub mod Correct
pub mod Valid
pub mod Link
mod Tests
