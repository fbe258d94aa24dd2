-- ===== src/Api.antt =====
-- apps/do-an: the API process.
pub mod Validator
pub mod ReadThrough
pub mod Settings
pub mod Slots
pub mod Placement
pub mod Registrations
pub mod Capacity
pub mod Auth
pub mod Csv
pub mod Users
pub mod Examples
