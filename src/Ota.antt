-- ===== src/Ota.antt =====
-- lib/ota/ota.c: the Content-Range parser, the chunk planner, the boot plan and the heartbeat body.
pub mod Range
pub mod Boot
pub mod Heartbeat
mod Tests
