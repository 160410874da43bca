-- ===== src/Safety/KillSwitch.antt =====
-- Kill switches: `stop` takes effect at once, and stays until its scope is re-enabled.
pub mod Blocks
pub mod Keeps
pub mod Effect
pub mod Stops
