-- ===== src/Control.antt =====
-- server/cawl_core/control.py, `ControlPlane`: the lifecycle operations, and the policy they enforce.
-- Control/Plane holds the deployment and the shared steps, the other children the operations and
-- what is proved of them.
pub mod Plane
pub mod Access
pub mod Jobs
pub mod Lifecycle
pub mod Creation
pub mod Policy
pub mod Teardown
pub mod Stopping
pub mod Expiry
pub mod Tests
