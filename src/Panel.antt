-- ===== src/Panel.antt =====
-- cmd/panel: the commands of the panel.
pub mod Format
pub mod Domains
pub mod Clients
pub mod Setup
pub mod Keys
pub mod Serve
pub mod Listing
pub mod Export
pub mod Entry
pub mod Flags
