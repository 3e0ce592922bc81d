-- ===== src/MemoryCards.antt =====
-- infrastructure/ps1_memory_card.py, the adapter for raw PlayStation memory cards.
pub mod Bytes
pub mod Xor
pub mod Frame
pub mod Chain
pub mod Write
pub mod Card
pub mod Adapter
mod Tests
