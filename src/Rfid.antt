-- ===== src/Rfid.antt =====
-- src/tagpulse/rfid/epc.py: the GS1 EPC schemes of a tag's memory, decoded from a reader's hex text.
pub mod Reader
pub mod Texts
pub mod Decode
pub mod Gtin
pub mod Packing
pub mod Fields
pub mod Tags
pub mod RoundTrip
pub mod CheckDigit
pub mod Hex
