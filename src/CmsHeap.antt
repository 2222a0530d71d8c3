-- ===== src/CmsHeap.antt =====
-- src/sketches/countminsketch_topk.rs, the regular path: a Count-Min sketch beside a heap of the keys with the
-- largest estimates. A key that the heap owns and the same key borrowed are one key here.
pub mod Top
pub mod Stream
pub mod Merge
use asap_sketchlib.Prelude.{ℕ, List, ◌++◌, map, Run, ok, ◌>>=◌, for_each}
use asap_sketchlib.Hasher.{SketchHasher}
use asap_sketchlib.Matrix.Counter.{Counter}
use asap_sketchlib.Matrix.Vector2d.{Vector2D}
use asap_sketchlib.CountMin.{CountMin}
use asap_sketchlib.CountMin
use asap_sketchlib.CountMin.Regular
use asap_sketchlib.HhHeap.{KeyOps, HhHeap}
use asap_sketchlib.HhHeap

pub record CmsHeap (K C : Type 0) : Type 0 where
  pub cms : CountMin C
  pub heap : HhHeap K

-- `into_i64` is the conversion of a counter, by `Into<i64>`
module _ {K C : Type 0} (c : Counter C) (into_i64 : C → ℕ) (h : SketchHasher K)
    (keys : KeyOps K) where
  unfoldable pub new : ℕ → ℕ → ℕ → Run (CmsHeap K C)
  new rows cols top_k = do
    cms ← CountMin.with_dimensions c rows cols
    ok (record { cms = cms; heap = HhHeap.new keys top_k })

  unfoldable pub from_storage : Vector2D C → ℕ → CmsHeap K C
  from_storage storage top_k = record {
    cms = CountMin.from_storage storage;
    heap = HhHeap.new keys top_k;
  }

  unfoldable pub clear_heap : CmsHeap K C → CmsHeap K C
  clear_heap self = record self { heap = HhHeap.clear keys self.heap }

  -- the estimate of a key, entered into the heap
  unfoldable pub refresh : K → CmsHeap K C → Run (CmsHeap K C)
  refresh key self = do
    est ← Regular.estimate c h self.cms key
    updated ← HhHeap.update keys key (into_i64 est) self.heap
    ok (record self { heap = updated.1 })

  unfoldable pub insert_many : K → C → CmsHeap K C → Run (CmsHeap K C)
  insert_many key many self = do
    cms ← Regular.insert_many c h key many self.cms
    refresh key (record self { cms = cms })

  unfoldable pub insert : K → CmsHeap K C → Run (CmsHeap K C)
  insert key self = do
    cms ← Regular.insert c h key self.cms
    refresh key (record self { cms = cms })

  unfoldable pub bulk_insert : List K → CmsHeap K C → Run (CmsHeap K C)
  bulk_insert values self = for_each values insert self

  unfoldable pub estimate : K → CmsHeap K C → Run C
  estimate key self = Regular.estimate c h self.cms key

  unfoldable pub merge : CmsHeap K C → CmsHeap K C → Run (CmsHeap K C)
  merge self other = do
    cms ← CountMin.merge c self.cms other.cms
    let candidate_keys =
        map (λ item. item.key) self.heap.heap.slots ++ map (λ item. item.key) other.heap.heap.slots
    for_each candidate_keys refresh (record self { cms = cms; heap = HhHeap.clear keys self.heap })
