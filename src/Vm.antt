-- ===== src/Vm.antt =====
-- internal/vm/vm.go: the virtual machine that runs bytecode.
pub mod Value
pub mod Monad
pub mod Float
pub mod Integer
pub mod Numeric
pub mod Binop
pub mod Guard
pub mod Data
pub mod Maps
pub mod Control
pub mod Calls
pub mod Run
mod Tests
pub mod Keeps
pub mod Moves
pub mod DataKeeps
pub mod MapsKeeps
pub mod ControlKeeps
pub mod CallsKeeps
pub mod Ungranted
pub mod EffectKeeps
pub mod StepKeeps
pub mod Bounded
pub mod Exact
pub mod Environment
pub mod Granted
