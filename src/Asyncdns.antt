-- ===== src/Asyncdns.antt =====
-- Namespace `asyncdns`: lib/asyncdns.cpp and include/asyncdns.hpp.
pub mod Names
pub mod Header
pub mod Response
pub mod Query
pub mod Resolver
mod Tests
