-- ===== src/Grpc.antt =====
-- internal/grpcclient
pub mod Cache
pub mod Persist
pub mod Client
pub mod Link
