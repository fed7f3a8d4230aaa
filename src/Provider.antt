-- ===== src/Provider.antt =====
-- internal/provider/github: what the provider adapters compute without the network.
pub mod Action
