-- ===== src/Items.antt =====
-- eva/src/items.rs: the items of a node, their states, and the inventory that holds them.
pub mod State
pub mod Data
pub mod Filter
pub mod Tree
pub mod ItemMap
pub mod Inventory
