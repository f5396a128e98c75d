-- ===== src/TextureCache/Entries.antt =====
-- The entries of the texture cache (webrender/src/texture_cache.rs), their rectangles in the GPU cache
-- (`ImageSource` of webrender/src/gpu_types.rs), and the eviction thresholds. An `f32` is its bit pattern,
-- and the conversion of an `i32` to it a parameter. A `SystemTime` is in nanoseconds. An eviction notice is
-- a shared cell: its identity in a store.
use webrender.Prelude.{
  ℕ, ◌+◌, ◌-◌, ◌*◌, ◌%◌, List, [], ◌∷◌, Option, none, some, Bool, true, false, ◌&&◌, Run, done,
  ◌>>=◌, usize_mod, ltb, leb, ◌==◌, if◌then◌else◌,
}
use webrender.Prelude.I32.{add_i32}
use webrender.FrameStamp.{FrameStamp, frame_sub}
use webrender.TextureAllocator.{DeviceIntPoint, DeviceIntSize, origin_point}
use webrender.Images.{ImageFormat, ImageDescriptor}
use webrender.GpuCache.Blocks.{GpuCacheHandle, new_handle}
use webrender.GpuCache.Caches
use webrender.GpuCache.Caches.{GpuCache, GpuDataRequest, request, drop_request}
use webrender.TextureCache.Updates.{TextureFilter}

pub data EntryDetails : Type 0 where
  standalone : EntryDetails
  cache : (origin : DeviceIntPoint) (layer_index : ℕ) → EntryDetails

pub data EntryKind : Type 0 where
  standalone_kind shared_kind : EntryKind

-- `EntryDetails::kind`
abbrev pub kind_of : EntryDetails → EntryKind
kind_of standalone = standalone_kind
kind_of (cache origin layer_index) = shared_kind

abbrev pub same_kind : EntryKind → EntryKind → Bool
same_kind standalone_kind standalone_kind = true
same_kind standalone_kind shared_kind = false
same_kind shared_kind standalone_kind = false
same_kind shared_kind shared_kind = true

pub data Eviction : Type 0 where
  auto manual eager : Eviction

-- Pairs of `f32`.
pub data UvRectKind : Type 0 where
  rect_kind : UvRectKind
  quad : (top_left top_right bottom_left bottom_right : ℕ × ℕ) → UvRectKind

-- The four `f32` of a block.
pub record GpuBlockData : Type 0 where
  pub d0 : ℕ
  pub d1 : ℕ
  pub d2 : ℕ
  pub d3 : ℕ

abbrev pub block_of_four : ℕ → ℕ → ℕ → ℕ → GpuBlockData
block_of_four a b c d = record { d0 = a; d1 = b; d2 = c; d3 = d }

pub record CacheEntry : Type 0 where
  pub size : DeviceIntSize
  pub details : EntryDetails
  pub user_data : ℕ × ℕ × ℕ
  pub last_access : FrameStamp
  pub uv_rect_handle : GpuCacheHandle
  pub format : ImageFormat
  pub filter : TextureFilter
  pub texture_id : ℕ
  pub eviction_notice : Option ℕ
  pub uv_rect_kind : UvRectKind
  pub eviction : Eviction

pub record CacheAllocParams : Type 0 where
  pub descriptor : ImageDescriptor
  pub filter : TextureFilter
  pub user_data : ℕ × ℕ × ℕ
  pub uv_rect_kind : UvRectKind

abbrev pub new_entry :
    EntryDetails → ℕ → ImageFormat → TextureFilter → FrameStamp → CacheAllocParams → CacheEntry
new_entry details texture_id format filter last_access params = record {
  size = params.descriptor.size;
  user_data = params.user_data;
  last_access = last_access;
  details = details;
  texture_id = texture_id;
  format = format;
  filter = filter;
  uv_rect_handle = new_handle;
  eviction_notice = none;
  uv_rect_kind = params.uv_rect_kind;
  eviction = auto;
}

abbrev pub new_standalone : ℕ → FrameStamp → CacheAllocParams → CacheEntry
new_standalone texture_id last_access params =
    new_entry standalone texture_id params.descriptor.format params.filter last_access params

-- The layer and the origin of an entry.
abbrev pub place_of : EntryDetails → ℕ × DeviceIntPoint
place_of standalone = (0, origin_point)
place_of (cache origin layer_index) = (layer_index, origin)

-- The blocks of the four vertices.
abbrev pub quad_blocks : UvRectKind → List GpuBlockData
quad_blocks rect_kind = []
quad_blocks (quad top_left top_right bottom_left bottom_right) =
    block_of_four top_left.0 top_left.1 top_right.0 top_right.1
    ∷ block_of_four bottom_left.0 bottom_left.1 bottom_right.0 bottom_right.1
    ∷ []

module _ (to_f32 : ℕ → ℕ) where
  -- `ImageSource` of an entry, as `write_gpu_blocks` pushes it.
  abbrev pub image_source_blocks : CacheEntry → List GpuBlockData
  image_source_blocks e =
      let (layer_index, origin) = place_of e.details in
      block_of_four (to_f32 origin.x) (to_f32 origin.y) (to_f32 (add_i32 origin.x e.size.width))
        (to_f32 (add_i32 origin.y e.size.height))
      ∷ block_of_four (to_f32 layer_index) e.user_data.0 e.user_data.1 e.user_data.2
      ∷ quad_blocks e.uv_rect_kind

  abbrev pub push_blocks : GpuCache GpuBlockData → List GpuBlockData → GpuCache GpuBlockData
  push_blocks g [] = g
  push_blocks g (b ∷ bs) = push_blocks (Caches.push g b) bs

  -- The request is filled, if the data is to be built; the entry, and the cache after it.
  abbrev pub fill_request :
      CacheEntry
      → GpuCache GpuBlockData
      → Option GpuDataRequest
      → Run (CacheEntry × GpuCache GpuBlockData)
  fill_request e g none = done (e, g)
  fill_request e g (some r) = do
    (g', handle) ← drop_request (push_blocks g (image_source_blocks e)) r
    done (record e { uv_rect_handle = handle }, g')

  unfoldable pub update_gpu_cache :
      CacheEntry → GpuCache GpuBlockData → Run (CacheEntry × GpuCache GpuBlockData)
  update_gpu_cache e g = do (g', r) ← request g e.uv_rect_handle; fill_request e g' r

-- The cells of the eviction notices.
abbrev pub Notices : Type 0
Notices = ℕ → Bool

abbrev pub set_notice : Notices → ℕ → Bool → Notices
set_notice notices i b j = if j == i then b else notices j

-- `CacheEntry::evict`
abbrev pub notify : Notices → Option ℕ → Notices
notify notices none = notices
notify notices (some i) = set_notice notices i true

-- `EvictionNotice::check`: the answer, and the cells after it.
abbrev pub check_notice : Notices → ℕ → Bool × Notices
check_notice notices i = if notices i then (true, set_notice notices i false) else (false, notices)

pub record EvictionThreshold : Type 0 where
  pub id : ℕ
  pub time : ℕ

abbrev pub should_evict : EvictionThreshold → FrameStamp → Bool
should_evict t last_access = ltb last_access.id t.id && ltb last_access.time t.time

pub record EvictionThresholdBuilder : Type 0 where
  pub now : FrameStamp
  pub max_frames : Option ℕ
  pub max_time_ms : Option ℕ
  pub scale_by_pressure : Bool

abbrev pub new_builder : FrameStamp → EvictionThresholdBuilder
new_builder now = record {
  now = now;
  max_frames = none;
  max_time_ms = none;
  scale_by_pressure = false;
}

abbrev pub with_max_frames : ℕ → EvictionThresholdBuilder → EvictionThresholdBuilder
with_max_frames frames b = record b { max_frames = some frames }

abbrev pub with_max_time_s : ℕ → EvictionThresholdBuilder → EvictionThresholdBuilder
with_max_time_s seconds b = record b { max_time_ms = some (seconds * 1000 % usize_mod) }

abbrev pub with_pressure : EvictionThresholdBuilder → EvictionThresholdBuilder
with_pressure b = record b { scale_by_pressure = true }

abbrev pub scaled_or_zero : (ℕ → ℕ) → Bool → Option ℕ → ℕ
scaled_or_zero pressure_scaled scale none = 0
scaled_or_zero pressure_scaled scale (some f) = if scale then pressure_scaled f else f

abbrev pub min_usize : ℕ → ℕ → ℕ
min_usize a b = if leb a b then a else b

-- `build`. `pressure_scaled f` is `(f as f64 * pressure_factor) as usize` under the memory pressure; with
-- the factor 1.0 it is `f`. A time before the epoch is 0: no stamp is earlier than either.
unfoldable pub build_threshold : (ℕ → ℕ) → EvictionThresholdBuilder → Run EvictionThreshold
build_threshold pressure_scaled b = do
  let max_frames =
      min_usize (scaled_or_zero pressure_scaled b.scale_by_pressure b.max_frames)
        ((b.now.id + usize_mod - 1) % usize_mod)
  let max_time_ns = scaled_or_zero pressure_scaled b.scale_by_pressure b.max_time_ms * 1000000
  id ← frame_sub b.now.id max_frames
  done (record { id = id; time = b.now.time - max_time_ns })
