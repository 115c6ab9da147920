-- ===== src/Http.antt =====
-- The request guards and the routes of the web application: src/lib/auth-http.ts, src/proxy.ts and
-- src/app/api.
pub mod Origins
pub mod Configured
pub mod Hosts
pub mod Sender
pub mod Passes
pub mod Proxy
pub mod Login
pub mod Body
pub mod Secured
mod Examples
