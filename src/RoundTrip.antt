-- ===== src/RoundTrip.antt =====
-- What the Encoder's methods write is read back by the Decoder's.
pub mod Runs
pub mod Word
pub mod Integer
pub mod Numbers
pub mod Kinds
pub mod Header
pub mod Text
pub mod Dictionary
pub mod InternRead
pub mod Intern
pub mod Container
pub mod Time
pub mod TimeExt
pub mod Dynamic
pub mod Reflect
pub mod StringMaps
