-- ===== src/Microscope.antt =====
-- src/sketches/microscope/cell.rs: one cell of the Microscope sketch, a byte record of pixels, a zoom
-- exponent and a shutter, with its parameters, its layout and its rounding.
pub mod Params
pub mod Rounding
pub mod Cell
pub mod Zoom
pub mod Bytes
pub mod Credit
pub mod Insert
pub mod ZoomIn
pub mod Enter
pub mod Merge
pub mod Validate
pub mod Sums
pub mod Union
