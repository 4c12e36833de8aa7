-- ===== src/Gateway.antt =====
-- The gateway (services/gateway/src): the live events that it broadcasts to the browsers, and its proxies
-- to the services.
pub mod Events
pub mod Window
pub mod Resume
pub mod Proxy
pub mod ProxySpec
mod ProxyTests
mod Tests
