-- ===== src/Child.antt =====
-- The engine process, src/child/mnm_engine.cpp: its engines, and its loop.
pub mod Engine
pub mod Block
pub mod Loop
pub mod Tests
