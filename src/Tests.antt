-- ===== src/Tests.antt =====
-- Tests of the definitions on concrete inputs, and the theorems at concrete inputs.
pub mod Fixtures
pub mod SecurityTests
pub mod AuthTests
pub mod RegistryTests
pub mod ServerTests
pub mod ConnectionTests
pub mod Formats
pub mod LogTests
pub mod ClientTests
pub mod ConsoleTests
