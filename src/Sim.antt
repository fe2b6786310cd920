-- ===== src/Sim.antt =====
-- instcode/Simulation.cpp and Simulation.hpp: the cache simulation that a traced program runs.
pub mod Level
pub mod Ring
pub mod Stats
pub mod Structure
pub mod Fast
pub mod Ranges
