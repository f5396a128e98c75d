-- ===== src/Storage.antt =====
-- webrender/src/storage.rs: a growing vector with `u32` indices and ranges. Capacities are left out, so that
-- `recycle`, which may give the vector a new buffer, is `clear`. A `&mut` that is handed out is a function
-- applied to the element.
pub mod Laws
mod Tests
use webrender.Prelude.{
  ℕ, zero, suc, ◌+◌, ◌-◌, ◌%◌, ◌<◌, List, [], ◌∷◌, ◌++◌, Bool, true, false, ◌&&◌, not, Run, done,
  panic, ◌>>=◌, index_at, u32_mod, length, set, ltb, leb, if◌then◌else◌,
}

-- An `Index` is its `u32`.
abbrev pub index_invalid : ℕ
index_invalid = u32_mod - 1

abbrev pub index_unused : ℕ
index_unused = u32_mod - 2

-- `Index::new`
abbrev pub new_index : ℕ → ℕ
new_index idx = idx % u32_mod

pub record IndexRange : Type 0 where
  pub start : ℕ
  pub end : ℕ

abbrev pub empty_range : IndexRange
empty_range = record { start = new_index 0; end = new_index 0 }

abbrev pub range_is_empty : IndexRange → Bool
range_is_empty r = not (ltb r.start r.end)

-- The elements from the `n`-th on, and the first `n`.
unfoldable pub skip {ℓ} : {T : Type ℓ} → ℕ → List T → List T
skip zero xs = xs
skip (suc n) [] = []
skip (suc n) (x ∷ xs) = skip n xs

unfoldable pub first_n {ℓ} : {T : Type ℓ} → ℕ → List T → List T
first_n zero xs = []
first_n (suc n) [] = []
first_n (suc n) (x ∷ xs) = x ∷ first_n n xs

pub record Storage {ℓ} (T : Type ℓ) : Type ℓ where
  pub items : List T

module _ {ℓ} {T : Type ℓ} where
  unfoldable pub new : Storage T
  new = record { items = [] }

  unfoldable pub storage_length : Storage T → ℕ
  storage_length s = length s.items

  unfoldable pub clear : Storage T → Storage T
  clear s = record { items = [] }

  unfoldable pub push : Storage T → T → Storage T × ℕ
  push s t = (record { items = s.items ++ t ∷ [] }, length s.items % u32_mod)

  unfoldable pub extend : Storage T → List T → Storage T × IndexRange
  extend s ts = (
    record { items = s.items ++ ts },
    record { start = new_index (length s.items); end = new_index (length (s.items ++ ts)) },
  )

  -- `storage[index]`
  unfoldable pub index : Storage T → ℕ → Run T
  index s i = index_at s.items i

  unfoldable pub index_mut : Storage T → ℕ → (T → T) → Run (Storage T)
  index_mut s i f = do t ← index_at s.items i; done (record { items = set s.items i (f t) })

  -- `storage[range]`: the slice, or a panic for a range that is not one of the vector.
  unfoldable pub index_range : Storage T → IndexRange → Run (List T)
  index_range s r =
      if leb r.start r.end && leb r.end (length s.items)
      then done (first_n (r.end - r.start) (skip r.start s.items))
      else panic
