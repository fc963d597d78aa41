-- ===== src/Machine.antt =====
-- What the intermediate languages of sbc mean: the specification that the passes are held to. It has
-- no counterpart in the source. A `Target` stands for the machine words of the compiled program, its
-- operators, and what a call does to the world outside of the frame.
pub mod Target
pub mod Registers
pub mod Simulation
pub mod Region
pub mod Stack
pub mod Graph
