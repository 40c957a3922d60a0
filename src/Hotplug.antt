-- ===== src/Hotplug.antt =====
-- internal/hotplug: the kernel's device events, and the signals that they become.
pub mod Uevent
pub mod Messages
pub mod Listener
pub mod NoLoss
pub mod Signals
