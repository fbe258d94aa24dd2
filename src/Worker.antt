-- ===== src/Worker.antt =====
-- apps/worker: the consumer of the registration queue and the handlers that change the seats.
pub mod Action
pub mod Statements
pub mod Handlers
pub mod Checks
pub mod DeadLetter
pub mod Consumer
pub mod Retries
pub mod Burial
pub mod Keeps
pub mod Seats
pub mod Registrations
pub mod Conservation
pub mod Effects
pub mod Leaks
pub mod Frames
pub mod Runs
pub mod Settled
pub mod Turns
pub mod Redelivery
pub mod CreateRun
pub mod CancelRun
pub mod Examples
