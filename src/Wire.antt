-- ===== src/Wire.antt =====
-- pkg/msgpack/msgpcode/msgpcode.go: the wire opcodes and the tests for their families.
pub mod Code
