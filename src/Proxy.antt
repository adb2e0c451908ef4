-- ===== src/Proxy.antt =====
-- proxy.rs: the reverse proxy. The modules below model the choice of the rule, the upstream's
-- URI, the header maps, and the two ways to forward.
pub mod Upstream
pub mod Matching
pub mod Headers
pub mod Forward
pub mod Startup
pub mod Tests
