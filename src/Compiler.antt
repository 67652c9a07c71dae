-- ===== src/Compiler.antt =====
-- The compiler of src/cs11.cpp and src/cs11.h, with the helpers of src/helperfunctions.h.
mod Llvm
mod Emission
mod Aggregates
mod State
mod Finish
mod Arithmetic
mod Control
mod Stores
mod Calls
mod Subobjects
mod References
mod Generate
mod Scope
mod Keeps
mod Members
mod Finished
mod Values
mod Branches
mod Parts
mod Whole
mod Results
mod Gotos
mod Tests
