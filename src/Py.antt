-- ===== src/Py.antt =====
-- What the program uses of Python's standard library on text and bytes: `str` methods, `int()`,
-- big-endian integers, hexadecimal text and `uuid.UUID`. A text is its list of code points; the
-- digits and blanks beyond ASCII, which `int()` and `strip()` also accept, are not modelled.
pub mod Text
pub mod Int
pub mod Bytes
pub mod Uuid
pub mod Lines
pub mod Words
pub mod Path
