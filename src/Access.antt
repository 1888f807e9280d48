-- ===== src/Access.antt =====
-- capture/processors/http: which hosts are decrypted (scope.go), who may use the proxy
-- (proxy_auth.go), and the header lines as they came in (readorder.go).
pub mod HostPort
pub mod Named
pub mod Scope
pub mod Hosts
pub mod ProxyAuth
pub mod Credentials
pub mod HeaderLines
pub mod Lines
