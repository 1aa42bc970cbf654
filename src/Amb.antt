-- ===== src/Amb.antt =====
-- The message bus client: src/sn/amb.
pub mod FunctionQueue
pub mod EventManager
pub mod TokenManagement
pub mod SubscriptionCommandSender
pub mod Channel
pub mod ChannelRedirect
mod Tests
