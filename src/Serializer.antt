-- ===== src/Serializer.antt =====
-- src/Bubot_CoAP/serializer.py: what both transports share. SerializerUdp and SerializerTcp call
-- these functions through their base class. The bytes of a message that are still to be read are a
-- list, where the source keeps a position: past the end of the bytes the list is empty.
pub mod Words
pub mod Pack
pub mod Ends
pub mod SetterEnds
pub mod Decode
pub mod Encode
pub mod Wire
pub mod Reading
pub mod Sorting
pub mod Udp
pub mod Tcp
