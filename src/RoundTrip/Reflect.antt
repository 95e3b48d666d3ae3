-- ===== src/RoundTrip/Reflect.antt =====
-- Values of Go types: what the encoder of a type writes, its decoder reads back into a new target.
pub mod Transfers
pub mod Numbers
pub mod Texts
pub mod Elements
pub mod Pointers
pub mod Header
pub mod Named
pub mod Structs
pub mod Values
pub mod Switches
pub mod Marshal
pub mod Multi
