-- ===== src/RoundTrip/Dynamic.antt =====
-- Values of type `any`: what Encode writes, DecodeInterface reads back.
pub mod Yields
pub mod Leaves
pub mod Text
pub mod Numbers
pub mod Unsigned
pub mod Slices
pub mod Entries
pub mod Maps
pub mod Values
pub mod Depth
pub mod Strings
