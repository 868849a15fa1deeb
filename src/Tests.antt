-- ===== src/Tests.antt =====
-- Concrete runs: a slave, a packing of floats and a native decoder that satisfy the hypotheses of
-- the development, and the theorems applied to them.
mod Device
mod Client
mod Scalar
mod Daq
mod A2l
mod Session
mod Host
mod ViewModel
mod Clock
