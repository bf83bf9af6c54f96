-- ===== src/Compact.antt =====
-- codec_msgpack.go: the compact codec, an array of the wire name and the fields of a message, and
-- the envelope of the map codec.
mod Tests
pub mod Values
pub mod Msgpack
pub mod Encode
pub mod Decode
pub mod Fitting
pub mod Reading
mod Kinds
pub mod Keeping
pub mod Envelope
pub mod Headers
pub mod Messages
pub mod MapItems
