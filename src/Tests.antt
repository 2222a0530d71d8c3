-- ===== src/Tests.antt =====
-- Runs of the model on small inputs, and the theorems at inputs that meet their hypotheses.
mod CountMin
mod Hll
mod Bloom
mod FoldCms
mod Tumbling
mod Heap
mod Kmv
mod Octo
mod Coco
mod Matrix
mod Eh
mod Microscope
mod HhHeap
mod Elastic
mod CmsHeap
