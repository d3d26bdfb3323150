-- ===== src/Egress.antt =====
-- server/cawl_core/egress.py and egress_proxy.py: the hosts that an environment may reach. Hosts
-- holds their normal form, Policies the file that the daemon writes, and Proxy the side that reads
-- it and decides on a connection.
pub mod Hosts
pub mod Policies
pub mod Proxy
pub mod Providers
mod Tests
