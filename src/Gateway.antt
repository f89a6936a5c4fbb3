-- ===== src/Gateway.antt =====
-- The plugin gateway, gateway_server/gateway.py.
pub mod Paths
pub mod Ports
pub mod Readiness
pub mod Json
pub mod Openapi
pub mod Manifest
pub mod Launch
pub mod Proxy
