-- ===== src/Tlv.antt =====
-- ndn/tlv: TLV numbers, elements, decoding and encoding.
pub mod VarNum
pub mod Nni
pub mod Element
pub mod Decode
pub mod Encode
