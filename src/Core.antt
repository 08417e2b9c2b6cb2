-- ===== src/Core.antt =====
-- backend/app/core and backend/app/db: exceptions, the session monad in which the services run,
-- the generic repository, money, and the event bus.
pub mod Exceptions
pub mod Action
pub mod Keeps
pub mod Table
pub mod Money
pub mod Events
