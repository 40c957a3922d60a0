-- ===== src/NodePlugin.antt =====
-- internal/nodeplugin: from an allocated claim to the edits of its containers. The spec directory is
-- the plugin's state; what the file system answers to a write or a removal is a parameter.
pub mod Inventory
pub mod Edits
pub mod Prepare
pub mod Specs
pub mod SpecFile
pub mod Serve
