-- ===== src/Pb.antt =====
-- corpc/net/pb/pb_codec.{h,cc} and pb_data.h: the package of an RPC call, its encoder and decoder.
-- `Package` has the data and the encoder, `Decode` the decoder.
pub mod Package
pub mod Decode
pub mod Encode
mod Tests
pub use Package.*
