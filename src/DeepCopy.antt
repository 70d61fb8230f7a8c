-- ===== src/DeepCopy.antt =====
-- api/v1alpha1/zz_generated.deepcopy.go on a heap: maps, slices and pointers are addresses.
pub mod Memory
pub mod Compose
pub mod Parts
pub mod Cells
pub mod Structs
pub mod Slots
pub mod Copy
pub mod Readings
pub mod Monotone
pub mod Entries
pub mod Deep
pub mod Objects
pub mod Whole
pub mod Interfaces
pub mod Aliasing
