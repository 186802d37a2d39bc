-- ===== src/Informer.antt =====
-- pkg/util/informer: the swap map and the store that turns list/watch notifications into events.
pub mod SwapMap
pub mod Store
mod Tests
