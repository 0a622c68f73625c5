-- ===== src/Capture.antt =====
-- The public capture, packages/public-capture/src/liqvera_public_capture/.
pub mod Fields
pub mod Reducer
pub mod Walk
pub mod Available
pub mod Timed
pub mod Prices
