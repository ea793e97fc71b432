-- ===== src/EventBus.antt =====
-- engine/event_bus/in_memory.py: the in-memory event bus.
pub mod Bus
pub mod Deliveries
mod Tests
