-- ===== src/DeepCopy.antt =====
-- The deep copies of api/v1alpha1/zz_generated.deepcopy.go.
pub mod Structs
pub mod Memory
pub mod Shapes
pub mod Copies
pub mod Cells
pub mod Kinds
pub mod Functions
pub mod Lists
pub mod Values
pub mod Deep
pub mod Resources
pub mod Independence
