-- ===== src/Grpc.antt =====
-- grpc/: the transport between an engine and an application in another process.
pub mod Wire
pub mod Codec
pub mod GrpcServer
pub mod Service
pub mod Client
pub mod Delivery
pub mod Calls
pub mod Accessors
pub mod Sessions
pub mod Faults
