-- ===== src/Stores.antt =====
-- frontend/apps/miniapp/src/stores: the state that pages share, and the storage that keeps a part
-- of it between two runs of the program.
pub mod Storage
pub mod Session
pub mod ActiveOrder
pub mod Location
