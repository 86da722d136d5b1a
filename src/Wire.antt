-- ===== src/Wire.antt =====
-- The binary fields that every wire format of the program is made of: big-endian numbers, a
-- writer for `buf[off:]` with `off += n`, and a reader for `data[off:]`.
pub mod BigEndian
pub mod Writer
pub mod Reader
