-- ===== src/Examples.antt =====
-- Concrete instances of the parameters, and the theorems and definitions of the development at them.
pub mod Parts
pub mod Policies
pub mod Codecs
pub mod Systems
pub mod Allocators
pub mod Buffers
pub mod Completions
pub mod Threads
pub mod Starting
pub mod Tooling
pub mod Guests
pub mod Agents
pub mod Providers
pub mod Overlaps
pub mod Services
pub mod Refused
pub mod Denied
