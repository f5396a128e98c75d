-- ===== src/TextureCache/Arrays.antt =====
-- `TextureArray` and `SharedTextures` of webrender/src/texture_cache.rs: the layers of the shared textures.
use webrender.Prelude.{
  ℕ, suc, ◌+◌, ◌*◌, ◌%◌, List, [], ◌∷◌, ◌++◌, Option, none, some, true, false, Run, done, panic,
  ◌>>=◌, unwrap, index_at, usize_mod, length, set, leb,
}
use webrender.FrameStamp.{FrameStamp}
use webrender.TextureAllocator.{DeviceIntPoint}
use webrender.RenderTargets.{assert}
use webrender.Images.{ImageFormat, r8, r16, bgra8, bytes_per_pixel}
use webrender.TextureCache.Updates.{TextureFilter, nearest, linear, TextureUpdateList, push_free}
use webrender.TextureCache.Regions.{
  texture_region_dimensions, SlabSize, same_slab, new_slab_size, TextureRegion, new_region,
  init_region, region_is_empty, alloc_slot, free_slot,
}
use webrender.TextureCache.Entries.{EntryDetails, cache, CacheEntry, CacheAllocParams, new_entry}

abbrev pub texture_region_pixels : ℕ
texture_region_pixels = texture_region_dimensions * texture_region_dimensions

pub record TextureArray : Type 0 where
  pub filter : TextureFilter
  pub format : ImageFormat
  pub regions : List TextureRegion
  pub empty_regions : ℕ
  pub texture_id : Option ℕ

abbrev pub new_array : ImageFormat → TextureFilter → TextureArray
new_array format filter = record {
  format = format;
  filter = filter;
  regions = [];
  empty_regions = 0;
  texture_id = none;
}

abbrev pub array_size_in_bytes : TextureArray → ℕ
array_size_in_bytes a =
    length a.regions * texture_region_pixels * bytes_per_pixel a.format % usize_mod

abbrev pub array_empty_region_bytes : TextureArray → ℕ
array_empty_region_bytes a =
    a.empty_regions * texture_region_pixels * bytes_per_pixel a.format % usize_mod

abbrev pub free_texture : Option ℕ → TextureUpdateList → Run TextureUpdateList
free_texture none updates = done updates
free_texture (some id) updates = push_free updates id

-- `clear` of an array: the array, and the updates after it.
unfoldable pub clear_array :
    TextureArray → TextureUpdateList → Run (TextureArray × TextureUpdateList)
clear_array a updates = do
  updates' ← free_texture a.texture_id updates
  done (record a { regions = []; empty_regions = 0; texture_id = none }, updates')

unfoldable pub push_region : TextureArray → Run TextureArray
push_region a = do
  let a' : TextureArray = record a {
    regions = a.regions ++ new_region (length a.regions) ∷ [];
    empty_regions = (a.empty_regions + 1) % usize_mod;
  }
  _ ← assert (leb a'.empty_regions (length a'.regions))
  done a'

-- The loop over the regions of the slab size, from number `i` on: the regions after it, the last empty
-- region, and the allocation.
unfoldable pub alloc_loop :
    SlabSize
    → ℕ
    → Option ℕ
    → List TextureRegion
    → List TextureRegion × Option ℕ × Option EntryDetails
alloc_loop slab_size i empty_index [] = ([], empty_index, none)
alloc_loop slab_size i empty_index (r ∷ rs) = elim (region_is_empty r) [
  | true ↦
      let (rs', empty', details) = alloc_loop slab_size (suc i) (some i) rs in
      (r ∷ rs', empty', details)
  | false ↦ elim (same_slab r.slab_size slab_size) [
    | true ↦
        let (r', point) = alloc_slot r in
        elim point [
          | some location ↦ (r' ∷ rs, empty_index, some (cache location r.layer_index))
          | none ↦
              let (rs', empty', details) = alloc_loop slab_size (suc i) empty_index rs in
              (r' ∷ rs', empty', details)
        ]
    | false ↦
        let (rs', empty', details) = alloc_loop slab_size (suc i) empty_index rs in
        (r ∷ rs', empty', details)
  ]
]

abbrev pub details_of : ℕ → Option DeviceIntPoint → Option EntryDetails
details_of layer_index none = none
details_of layer_index (some location) = some (cache location layer_index)

-- The allocation from the empty region number `i`, which is cut for the slab size.
unfoldable pub alloc_empty : TextureArray → SlabSize → ℕ → Run (TextureArray × Option EntryDetails)
alloc_empty a slab_size i = do
  region ← index_at a.regions i
  (region', empty_regions) ← init_region region slab_size a.empty_regions
  let (region'', point) = alloc_slot region'
  done (
    record a { regions = set a.regions i region''; empty_regions = empty_regions },
    details_of region.layer_index point,
  )

-- The second attempt, if the loop found no block.
abbrev pub alloc_rest :
    TextureArray
    → SlabSize
    → Option ℕ
    → Option EntryDetails
    → Run (TextureArray × Option EntryDetails)
alloc_rest a slab_size empty_index (some details) = done (a, some details)
alloc_rest a slab_size none none = done (a, none)
alloc_rest a slab_size (some i) none = alloc_empty a slab_size i

abbrev pub entry_of :
    TextureArray → CacheAllocParams → FrameStamp → Option EntryDetails → Run (Option CacheEntry)
entry_of a params now none = done none
entry_of a params now (some details) = do
  texture_id ← unwrap a.texture_id
  done (some (new_entry details texture_id a.format a.filter now params))

-- `alloc` of an array.
unfoldable pub alloc_in_array :
    TextureArray → CacheAllocParams → FrameStamp → Run (TextureArray × Option CacheEntry)
alloc_in_array a params now = do
  slab_size ← new_slab_size params.descriptor.size
  let (regions, empty_index, details) = alloc_loop slab_size 0 none a.regions
  (a', details') ← alloc_rest (record a { regions = regions }) slab_size empty_index details
  entry ← entry_of a' params now details'
  done (a', entry)

-- The slot of an entry is freed, in the region of its layer.
unfoldable pub free_in_array : TextureArray → ℕ → TextureRegion → DeviceIntPoint → Run TextureArray
free_in_array a layer_index region origin = do
  (region', empty_regions) ← free_slot region origin a.empty_regions
  done (record a { regions = set a.regions layer_index region'; empty_regions = empty_regions })

pub record SharedTextures : Type 0 where
  pub array_rgba8_nearest : TextureArray
  pub array_a8_linear : TextureArray
  pub array_a16_linear : TextureArray
  pub array_rgba8_linear : TextureArray

abbrev pub new_shared : SharedTextures
new_shared = record {
  array_a8_linear = new_array r8 linear;
  array_a16_linear = new_array r16 linear;
  array_rgba8_linear = new_array bgra8 linear;
  array_rgba8_nearest = new_array bgra8 nearest;
}

abbrev pub size_in_bytes : SharedTextures → ℕ
size_in_bytes s =
    (array_size_in_bytes s.array_a8_linear
      + array_size_in_bytes s.array_a16_linear
      + array_size_in_bytes s.array_rgba8_linear
      + array_size_in_bytes s.array_rgba8_nearest)
    % usize_mod

abbrev pub empty_region_bytes : SharedTextures → ℕ
empty_region_bytes s =
    (array_empty_region_bytes s.array_a8_linear
      + array_empty_region_bytes s.array_a16_linear
      + array_empty_region_bytes s.array_rgba8_linear
      + array_empty_region_bytes s.array_rgba8_nearest)
    % usize_mod

unfoldable pub clear_shared_textures :
    SharedTextures → TextureUpdateList → Run (SharedTextures × TextureUpdateList)
clear_shared_textures s updates = do
  (a8, updates1) ← clear_array s.array_a8_linear updates
  (a16, updates2) ← clear_array s.array_a16_linear updates1
  (bgra8_linear, updates3) ← clear_array s.array_rgba8_linear updates2
  (bgra8_nearest, updates4) ← clear_array s.array_rgba8_nearest updates3
  done (
    record {
      array_a8_linear = a8;
      array_a16_linear = a16;
      array_rgba8_linear = bgra8_linear;
      array_rgba8_nearest = bgra8_nearest;
    },
    updates4,
  )

-- The array that `select` borrows, as the field of that name.
pub data Selected : Type 0 where
  a8_linear a16_linear rgba8_linear rgba8_nearest : Selected

unfoldable pub select : ImageFormat → TextureFilter → Run Selected
select r8 linear = done a8_linear
select r16 linear = done a16_linear
select bgra8 linear = done rgba8_linear
select bgra8 nearest = done rgba8_nearest
select format filter = panic

abbrev pub array_at : SharedTextures → Selected → TextureArray
array_at s a8_linear = s.array_a8_linear
array_at s a16_linear = s.array_a16_linear
array_at s rgba8_linear = s.array_rgba8_linear
array_at s rgba8_nearest = s.array_rgba8_nearest

-- The write through the borrow.
abbrev pub set_array : SharedTextures → Selected → TextureArray → SharedTextures
set_array s a8_linear a = record s { array_a8_linear = a }
set_array s a16_linear a = record s { array_a16_linear = a }
set_array s rgba8_linear a = record s { array_rgba8_linear = a }
set_array s rgba8_nearest a = record s { array_rgba8_nearest = a }
