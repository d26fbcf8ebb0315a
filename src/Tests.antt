-- ===== src/Tests.antt =====
-- Instances of the parameters, and the theorems at concrete inputs.
mod Floats
mod Doubles
mod Math
mod Ahrs
mod Compass
mod Board
mod Bus
mod Files
mod Program
mod Server
mod Clock
mod Lifetime
