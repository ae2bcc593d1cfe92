-- ===== src/Aws.antt =====
-- libs/aws/allocator: the cloud client for EC2. The SDK's client is an argument of what calls it.
pub mod Paging
pub mod InstanceTypes
pub mod Instances
pub mod Config
pub mod CloudClient
