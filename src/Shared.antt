-- ===== src/Shared.antt =====
-- Shared/Protocol: the wire structs and codes that the firmware parts have in common.
pub mod Protocol
pub mod Automation
pub mod NodeProtocol
