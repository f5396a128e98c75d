-- ===== src/TextureCache/Tests.antt =====
-- Runs of webrender/src/texture_cache.rs and of the update lists on concrete textures and entries.
use webrender.Prelude.{
  ℕ, ◌≡◌, refl, List, [], ◌∷◌, none, some, false, Run, done, panic, arith, if◌then◌else◌, ◌==◌,
}
use webrender.TextureAllocator.{origin_point}
use webrender.Images.{bgra8}
use webrender.TextureCache.Updates.{
  linear, alloc, free, TextureCacheAllocInfo, TextureUpdateList, TextureCacheUpdate, debug_clear,
  new_update_list, push_realloc, push_free, find_kind, remove_kind, drop_updates, set_kind,
}
use webrender.TextureCache.Uploads.{
  Textures, Command, allocate_texture, resize_texture, free_texture, upload, execute_all,
  record_commands, apply_allocation, apply_kind, update_texture_cache,
}
use webrender.TextureCache.Coalescing.{record_commands-execute_all}

abbrev info : ℕ → TextureCacheAllocInfo
info n = record {
  width = n;
  height = n;
  layer_count = 1;
  format = bgra8;
  filter = linear;
  is_shared_cache = false;
}

abbrev upload_to : ℕ → TextureCacheUpdate
upload_to id = record {
  id = id;
  rect = record { origin = origin_point; size = record { width = 4; height = 4 } };
  stride = none;
  offset = 0;
  layer_index = 0;
  source = debug_clear;
}

-- Texture 0 exists.
abbrev one_texture : Textures
one_texture j = if j == 0 then some (info 8) else none

-- A texture that grows, one that is gone before the frame ends, and an old one that is freed.
abbrev commands : List Command
commands =
    allocate_texture 1 (info 16)
    ∷ upload (upload_to 1)
    ∷ resize_texture 1 (info 32)
    ∷ allocate_texture 2 (info 64)
    ∷ upload (upload_to 2)
    ∷ free_texture 2
    ∷ free_texture 0
    ∷ []

abbrev textures_of : Run Textures → Textures
textures_of (done m) = m
textures_of panic = one_texture

commands_done :
    execute_all commands one_texture ≡ done (textures_of (execute_all commands one_texture))
unfolding execute_all apply_allocation apply_kind
commands_done = refl

record_commands-execute_all_example :
    (l : TextureUpdateList) × (record_commands commands new_update_list ≡ done l)
    × (m' : Textures) × (update_texture_cache l one_texture ≡ done m')
    × ((j : ℕ) → m' j ≡ textures_of (execute_all commands one_texture) j)
record_commands-execute_all_example =
    record_commands-execute_all 1 commands one_texture
      (textures_of (execute_all commands one_texture))
      (omega arith, (omega arith, (omega arith, (omega arith, (omega arith, tt))))) commands_done

-- The list that is left: one allocation of texture 1, and the freeing of texture 0.
commands_coalesced :
    record_commands commands new_update_list
    ≡ done (record {
      allocations = record { id = 1; kind = alloc (info 32) } ∷ record { id = 0; kind = free } ∷ [];
      updates = upload_to 1 ∷ [];
    })
unfolding record_commands push_realloc push_free find_kind remove_kind drop_updates set_kind
commands_coalesced = refl
