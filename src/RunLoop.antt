-- ===== src/RunLoop.antt =====
-- crates/grafted-frameworks/src/cf/runloop.rs: the run loop.
-- `Mode` reads mode names, `Registry` adds and removes sources, timers and observers, `Pass` is
-- one call of `CFRunLoopRunInMode`, with the application's callbacks as a parameter.
pub mod Mode
pub mod Registry
pub mod Pass
mod Tests
