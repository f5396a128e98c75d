-- ===== src/TextureCache/Uploads.antt =====
-- What `Renderer::update_texture_cache` of webrender/src/renderer.rs does to `texture_cache_map` with a
-- `TextureUpdateList`. A texture of the map is what it was created from; the device is not modelled.
use webrender.Prelude.{
  ℕ, List, [], ◌∷◌, Option, none, some, Bool, true, false, not, Run, done, ◌>>=◌, ◌==◌,
  if◌then◌else◌,
}
use webrender.RenderTargets.{assert}
use webrender.TextureCache.Updates.{
  TextureCacheAllocInfo, TextureCacheAllocationKind, alloc, realloc, free, TextureCacheAllocation,
  TextureCacheUpdate, TextureUpdateList, push_alloc, push_realloc, push_free, push_update,
}

abbrev pub Textures : Type 0
Textures = ℕ → Option TextureCacheAllocInfo

abbrev pub set_texture : Textures → ℕ → Option TextureCacheAllocInfo → Textures
set_texture m id texture j = if j == id then texture else m j

abbrev pub is_some : Option TextureCacheAllocInfo → Bool
is_some none = false
is_some (some info) = true

-- The `match` on the kind of an allocation: the texture after it, from the texture before it.
unfoldable pub apply_kind :
    TextureCacheAllocationKind → Option TextureCacheAllocInfo → Run (Option TextureCacheAllocInfo)
apply_kind (alloc info) old = do _ ← assert (not (is_some old)); done (some info)
apply_kind (realloc info) old = do _ ← assert (is_some old); done (some info)
apply_kind free old = do _ ← assert (is_some old); done none

unfoldable pub apply_allocation : TextureCacheAllocation → Textures → Run Textures
apply_allocation a m = do texture ← apply_kind a.kind (m a.id); done (set_texture m a.id texture)

unfoldable pub apply_allocations : List TextureCacheAllocation → Textures → Run Textures
apply_allocations [] m = done m
apply_allocations (a ∷ rest) m = do m' ← apply_allocation a m; apply_allocations rest m'

-- The look-up of the texture of every update.
unfoldable pub find_textures : List TextureCacheUpdate → Textures → Run (Unit {0})
find_textures [] m = done tt
find_textures (u ∷ us) m = do _ ← assert (is_some (m u.id)); find_textures us m

-- One update list.
unfoldable pub update_texture_cache : TextureUpdateList → Textures → Run Textures
update_texture_cache l m = do
  m' ← apply_allocations l.allocations m
  _ ← find_textures l.updates m'
  done m'

-- What the texture cache asks for, in its order.
pub data Command : Type 0 where
  allocate_texture resize_texture : ℕ → TextureCacheAllocInfo → Command
  free_texture : ℕ → Command
  upload : TextureCacheUpdate → Command

-- A command goes to the list.
abbrev pub record_command : TextureUpdateList → Command → Run TextureUpdateList
record_command l (allocate_texture id info) = done (push_alloc l id info)
record_command l (resize_texture id info) = push_realloc l id info
record_command l (free_texture id) = push_free l id
record_command l (upload u) = done (push_update l u)

unfoldable pub record_commands : List Command → TextureUpdateList → Run TextureUpdateList
record_commands [] l = done l
record_commands (c ∷ cs) l = do l' ← record_command l c; record_commands cs l'

-- The same command at once, in a renderer that waits for no list.
abbrev pub execute : Command → Textures → Run Textures
execute (allocate_texture id info) m = apply_allocation (record { id = id; kind = alloc info }) m
execute (resize_texture id info) m = apply_allocation (record { id = id; kind = realloc info }) m
execute (free_texture id) m = apply_allocation (record { id = id; kind = free }) m
execute (upload u) m = do _ ← assert (is_some (m u.id)); done m

unfoldable pub execute_all : List Command → Textures → Run Textures
execute_all [] m = done m
execute_all (c ∷ cs) m = do m' ← execute c m; execute_all cs m'
