-- ===== src/Window.antt =====
-- window/: the selective-repeat window. `N`, the size of the arrays, is an argument `size`.
pub mod Rx
pub mod Tx
pub mod Pump
pub mod PumpEvents
mod Tests
