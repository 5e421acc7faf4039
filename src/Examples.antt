-- ===== src/Examples.antt =====
-- Concrete libraries and inputs, and the theorems applied to them.
pub mod Toy
pub mod PfStates
pub mod PfLoading
pub mod PfNodeEvents
pub mod NavStates
pub mod BridgeTrips
pub mod PipelineWindow
pub mod PlannerTrips
pub mod RosbagTrips
pub mod MapServerTrips
pub mod RawlogTrips
pub mod PfNodeStart
pub mod PipelineStart
pub mod NavStart
pub mod PlannerStart
pub mod PfWindow
pub mod MissionTrip
pub mod MissionObstacles
