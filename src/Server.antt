-- ===== src/Server.antt =====
-- libs/server: the handlers of the public interface and of the agents' interface.
pub mod Messages
pub mod Helpers
pub mod Conversions
pub mod PublicApi
pub mod AgentApi
