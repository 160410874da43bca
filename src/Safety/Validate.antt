-- ===== src/Safety/Validate.antt =====
-- The validators of src/safety/safetyController.ts below `validateState`. A parsed JSON value of the
-- right shape is a record, so what is left of a validator is its tests on the values.
mod Fields
pub mod Controls
pub mod Records
pub mod Laws
unfoldable pub use Fields.*
