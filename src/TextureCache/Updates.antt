-- ===== src/TextureCache/Updates.antt =====
-- The commands that the texture cache sends to the renderer: `TextureUpdateList` of
-- webrender/src/internal_types.rs, which coalesces allocations, and `TextureCacheUpdate::new_update` of
-- webrender/src/texture_cache.rs. A `CacheTextureId` is its number.
use webrender.Prelude.{
  ℕ, List, [], ◌∷◌, ◌++◌, Option, none, some, Bool, true, false, Run, done, panic, ◌>>=◌, length,
  leb, ◌==◌, if◌then◌else◌,
}
use webrender.Prelude.I32.{add_i32, sub_i32, mul_i32, le_i32, is_negative}
use webrender.TextureAllocator.{DeviceIntPoint, DeviceIntSize, DeviceIntRect}
use webrender.RenderTargets.{assert}
use webrender.Images.{
  ImageFormat, bytes_per_pixel, ImageDescriptor, compute_stride, DirtyRect, all, partial,
  texture_handle, buffer, CachedImageData, raw, blob, external,
}

pub data TextureFilter : Type 0 where
  nearest linear trilinear : TextureFilter

pub record TextureCacheAllocInfo : Type 0 where
  pub width : ℕ
  pub height : ℕ
  pub layer_count : ℕ
  pub format : ImageFormat
  pub filter : TextureFilter
  pub is_shared_cache : Bool

pub data TextureCacheAllocationKind : Type 0 where
  alloc realloc : TextureCacheAllocInfo → TextureCacheAllocationKind
  free : TextureCacheAllocationKind

pub record TextureCacheAllocation : Type 0 where
  pub id : ℕ
  pub kind : TextureCacheAllocationKind

pub data TextureUpdateSource : Type 0 where
  external_source : (id channel_index : ℕ) → TextureUpdateSource
  bytes : List ℕ → TextureUpdateSource
  debug_clear : TextureUpdateSource

pub record TextureCacheUpdate : Type 0 where
  pub id : ℕ
  pub rect : DeviceIntRect
  pub stride : Option ℕ
  pub offset : ℕ
  pub layer_index : ℕ
  pub source : TextureUpdateSource

pub record TextureUpdateList : Type 0 where
  pub allocations : List TextureCacheAllocation
  pub updates : List TextureCacheUpdate

abbrev pub new_update_list : TextureUpdateList
new_update_list = record { allocations = []; updates = [] }

abbrev pub push_update : TextureUpdateList → TextureCacheUpdate → TextureUpdateList
push_update l u = record l { updates = l.updates ++ u ∷ [] }

abbrev pub push_debug_clear : TextureUpdateList → ℕ → DeviceIntPoint → ℕ → ℕ → ℕ → TextureUpdateList
push_debug_clear l id origin width height layer_index = push_update l (record {
  id = id;
  rect = record { origin = origin; size = record { width = width; height = height } };
  source = debug_clear;
  stride = none;
  offset = 0;
  layer_index = layer_index;
})

abbrev pub push_allocation : TextureUpdateList → ℕ → TextureCacheAllocationKind → TextureUpdateList
push_allocation l id kind = record l {
  allocations = l.allocations ++ record { id = id; kind = kind } ∷ [];
}

abbrev pub push_alloc : TextureUpdateList → ℕ → TextureCacheAllocInfo → TextureUpdateList
push_alloc l id info = push_allocation l id (alloc info)

-- The kind of the first allocation of a texture.
unfoldable pub find_kind : ℕ → List TextureCacheAllocation → Option TextureCacheAllocationKind
find_kind id [] = none
find_kind id (a ∷ rest) = elim (a.id == id) [ true ↦ some a.kind | false ↦ find_kind id rest ]

-- The write to the first allocation of a texture.
unfoldable pub set_kind :
    ℕ → TextureCacheAllocationKind → List TextureCacheAllocation → List TextureCacheAllocation
set_kind id kind [] = []
set_kind id kind (a ∷ rest) = elim (a.id == id) [
  | true ↦ record { id = a.id; kind = kind } ∷ rest
  | false ↦ a ∷ set_kind id kind rest
]

-- `allocations.remove` of the first allocation of a texture.
unfoldable pub remove_kind : ℕ → List TextureCacheAllocation → List TextureCacheAllocation
remove_kind id [] = []
remove_kind id (a ∷ rest) = elim (a.id == id) [ true ↦ rest | false ↦ a ∷ remove_kind id rest ]

abbrev pub realloc_kind :
    TextureCacheAllocationKind → TextureCacheAllocInfo → Run TextureCacheAllocationKind
realloc_kind (alloc i) info = done (alloc info)
realloc_kind (realloc i) info = done (realloc info)
realloc_kind free info = panic

unfoldable pub push_realloc : TextureUpdateList → ℕ → TextureCacheAllocInfo → Run TextureUpdateList
push_realloc l id info = elim (find_kind id l.allocations) [
  | some kind ↦ do
    kind' ← realloc_kind kind info
    done (record l { allocations = set_kind id kind' l.allocations })
  | none ↦ done (push_allocation l id (realloc info))
]

-- `updates.retain(|x| x.id != id)`
unfoldable pub drop_updates : ℕ → List TextureCacheUpdate → List TextureCacheUpdate
drop_updates id [] = []
drop_updates id (u ∷ us) = let rest = drop_updates id us in if u.id == id then rest else u ∷ rest

-- The `match` on what was removed.
abbrev pub after_free :
    TextureUpdateList → ℕ → Option TextureCacheAllocationKind → Run TextureUpdateList
after_free l id (some (alloc i)) = done l
after_free l id (some free) = panic
after_free l id (some (realloc i)) = done (push_allocation l id free)
after_free l id none = done (push_allocation l id free)

unfoldable pub push_free : TextureUpdateList → ℕ → Run TextureUpdateList
push_free l id =
    after_free
      (record { allocations = remove_kind id l.allocations; updates = drop_updates id l.updates })
      id (find_kind id l.allocations)

-- `bytes.len() >= finish as usize`, which no vector is for a negative `finish`.
abbrev pub has_bytes : List ℕ → ℕ → Bool
has_bytes data_bytes finish = if is_negative finish then false else leb finish (length data_bytes)

abbrev pub new_source : CachedImageData → ImageDescriptor → Run TextureUpdateSource
new_source blob d = panic
new_source (external e) d = elim e.image_type [
  | texture_handle ↦ panic
  | buffer ↦ done (external_source e.id e.channel_index)
]
new_source (raw data_bytes) d = do
  let finish =
      add_i32 (add_i32 d.offset (mul_i32 d.size.width (bytes_per_pixel d.format)))
        (mul_i32 (sub_i32 d.size.height 1) (compute_stride d))
  _ ← assert (has_bytes data_bytes finish)
  done (bytes data_bytes)

abbrev pub min_i32 : ℕ → ℕ → ℕ
min_i32 a b = if le_i32 a b then a else b

unfoldable pub new_update :
    CachedImageData
    → ImageDescriptor
    → DeviceIntPoint
    → DeviceIntSize
    → ℕ
    → ℕ
    → DirtyRect
    → Run TextureCacheUpdate
new_update image d origin size texture_id layer_index dirty_rect = do
  source ← new_source image d
  done (elim dirty_rect [
    | partial dirty ↦ record {
      id = texture_id;
      rect = record {
        origin = record {
          x = add_i32 origin.x dirty.origin.x;
          y = add_i32 origin.y dirty.origin.y;
        };
        size = record {
          width = min_i32 dirty.size.width (sub_i32 size.width dirty.origin.x);
          height = min_i32 dirty.size.height (sub_i32 size.height dirty.origin.y);
        };
      };
      source = source;
      stride = some (compute_stride d);
      offset =
          add_i32 (add_i32 d.offset (mul_i32 dirty.origin.y (compute_stride d)))
            (mul_i32 dirty.origin.x (bytes_per_pixel d.format));
      layer_index = layer_index;
    }
    | all ↦ record {
      id = texture_id;
      rect = record { origin = origin; size = size };
      source = source;
      stride = d.stride;
      offset = d.offset;
      layer_index = layer_index;
    }
  ])
