-- ===== src/Conversations.antt =====
-- backend/app/modules/conversations: the life of a conversation between the AI and the agents.
pub mod StateMachine
pub mod Store
pub mod Service
pub mod Locking
pub mod Bulk
pub mod Requests
mod Tests
