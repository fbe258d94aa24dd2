-- ===== src/Shared.antt =====
-- libs/shared/src: the rules on weeks and on registration windows that the services share.
pub mod Counters
pub mod SlotWindow
pub mod WeekRange
pub mod Examples
