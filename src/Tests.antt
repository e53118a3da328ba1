-- ===== src/Tests.antt =====
-- Runs of the model on concrete inputs, and the theorems at concrete inputs.
mod Runs
mod Memories
mod Programs
mod Values
mod Cython
