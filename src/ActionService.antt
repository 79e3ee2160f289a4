-- ===== src/ActionService.antt =====
-- backend/src/doda/application/action_service.py. An `Action` or an `Approval` that a function
-- takes is the object that its caller loaded, perhaps before other transactions committed;
-- `reload` is the `SELECT … FOR UPDATE` with `populate_existing`.
pub mod Propose
pub mod Transition
pub mod Submit
pub mod Consume
pub mod Listing
