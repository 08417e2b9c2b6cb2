-- ===== src/Messaging.antt =====
-- backend/app/modules/messaging: the delivery of one outbound message, from the task that sends it to
-- the callbacks on it and the retries that they schedule.
pub mod Delivery
pub mod Worker
mod Tests
