-- ===== src/TextureAllocator/Split.antt =====
-- The guillotine cut of webrender/src/texture_allocator.rs: the request and the two rectangles that
-- are put back tile the chosen rectangle.
use webrender.Prelude.{ℕ, ◌+◌, ◌-◌, ◌≤◌, ◌<◌, ◌≡◌, refl, ◌⊎◌, inl, inr, done, arith, Bool-cases}
use webrender.Prelude.I32.{i32_half, add_i32-eq, sub_i32-eq}
use webrender.TextureAllocator.{
  DeviceIntRect, DeviceIntSize, FreeRect, ArrayAllocationTracker, mk_rect, guillotine,
  rect_is_empty, push_if_some, split_guillotine,
}
use webrender.TextureAllocator.Bins.{IsInside, Inv, push_lem}
use webrender.TextureAllocator.Cover.{covers_at, weigh_bins, cut_right, cut_bottom}
use webrender.TextureAllocator.Find.{IsRequest, Fits}

-- The two cuts, with plain arithmetic.
abbrev tall_right : ℕ → ℕ → ℕ → ℕ → ℕ → ℕ → DeviceIntRect × DeviceIntRect
tall_right x y w h cw ch = (mk_rect (x + w) y (cw - w) ch, mk_rect x (y + h) w (ch - h))

abbrev wide_bottom : ℕ → ℕ → ℕ → ℕ → ℕ → ℕ → DeviceIntRect × DeviceIntRect
wide_bottom x y w h cw ch = (mk_rect (x + w) y (cw - w) h, mk_rect x (y + h) cw (ch - h))

guillotine-cases :
    (x y w h cw ch : ℕ)
    → w ≤ cw
    → h ≤ ch
    → x + cw < i32_half
    → y + ch < i32_half
    → (guillotine (mk_rect x y cw ch) (record { width = w; height = h }) ≡ tall_right x y w h cw ch)
      ⊎ (guillotine (mk_rect x y cw ch) (record { width = w; height = h })
          ≡ wide_bottom x y w h cw ch)
unfolding guillotine
guillotine-cases x y w h cw ch fw fh sx sy =
    rw
      (
        add_i32-eq x w (omega arith),
        add_i32-eq y h (omega arith),
        sub_i32-eq cw w fw (omega arith),
        sub_i32-eq ch h fh (omega arith),
      )
      (ground arith)

module _ (dims : ℕ → DeviceIntSize) where
  push_if_some_lem :
      (t : ArrayAllocationTracker) (slice x y w h : ℕ)
      → Inv dims t
      → x + w ≤ (dims slice).width
      → y + h ≤ (dims slice).height
      → (dims slice).width < i32_half
      → (dims slice).height < i32_half
      → (t' : ArrayAllocationTracker) × (push_if_some t slice (mk_rect x y w h) ≡ done t')
        × Inv dims t'
        × ((s a b : ℕ)
            → weigh_bins (covers_at s a b) t'.bins
              ≡ weigh_bins (covers_at s a b) t.bins
                + covers_at s a b (record { slice = slice; rect = mk_rect x y w h }))
  unfolding push_if_some
  push_if_some_lem t slice x y w h v right bottom sw sh =
      elim (Bool-cases (rect_is_empty (mk_rect x y w h))) [
        | inl e ↦ (t, rw e refl, v, λ s a b. (ground arith))
        | inr e ↦
            let (t', pushed, v', weighs) = push_lem dims t slice (mk_rect x y w h) v (record {
              pos_width = (ground arith);
              pos_height = (ground arith);
              right = right;
              bottom = bottom;
              small_width = sw;
              small_height = sh;
            }) in
            (t', rw e pushed, v', λ s a b. weighs (covers_at s a b))
      ]

  -- A chosen rectangle that is in no bin, cut for a request that fits in it: the cut never panics, it
  -- keeps the bins sorted, and each point is free afterwards as often as before, counting the
  -- request's rectangle on one side and the chosen one on the other.
  pub split_guillotine_lem :
      (t : ArrayAllocationTracker) (chosen : FreeRect) (size : DeviceIntSize)
      → Inv dims t
      → IsInside dims chosen
      → IsRequest size
      → Fits size chosen
      → (t' : ArrayAllocationTracker) × (split_guillotine t chosen size ≡ done t')
        × Inv dims t'
        × ((s a b : ℕ)
            → weigh_bins (covers_at s a b) t'.bins
                + covers_at s a b (record {
                  slice = chosen.slice;
                  rect = record { origin = chosen.rect.origin; size = size };
                })
              ≡ weigh_bins (covers_at s a b) t.bins + covers_at s a b chosen)
  unfolding split_guillotine
  split_guillotine_lem t chosen size v inside ok fits =
      elim (guillotine-cases x y w h cw ch fits.0 fits.1
        (omega (arith, inside.right, inside.small_width))
        (omega (arith, inside.bottom, inside.small_height))) [
          | inl e ↦
              let (t1, p1, v1, w1) =
                push_if_some_lem t chosen.slice (x + w) y (cw - w) ch v
                  (omega (arith, inside.right, fits.0)) inside.bottom inside.small_width
                  inside.small_height in
              let (t2, p2, v2, w2) =
                push_if_some_lem t1 chosen.slice x (y + h) w (ch - h) v1
                  (omega (arith, inside.right, fits.0)) (omega (arith, inside.bottom, fits.1))
                  inside.small_width inside.small_height in
              (
                t2,
                rw (e, p1) p2,
                v2,
                λ s a b.
                    ground (arith, w1 s a b, w2 s a b, cut_right x y w h cw ch a b fits.0 fits.1),
              )
          | inr e ↦
              let (t1, p1, v1, w1) =
                push_if_some_lem t chosen.slice (x + w) y (cw - w) h v
                  (omega (arith, inside.right, fits.0)) (omega (arith, inside.bottom, fits.1))
                  inside.small_width inside.small_height in
              let (t2, p2, v2, w2) =
                push_if_some_lem t1 chosen.slice x (y + h) cw (ch - h) v1 inside.right
                  (omega (arith, inside.bottom, fits.1)) inside.small_width inside.small_height in
              (
                t2,
                rw (e, p1) p2,
                v2,
                λ s a b.
                    ground (arith, w1 s a b, w2 s a b, cut_bottom x y w h cw ch a b fits.0 fits.1),
              )
        ]
    where
      x : ℕ
      x = chosen.rect.origin.x

      y : ℕ
      y = chosen.rect.origin.y

      w : ℕ
      w = size.width

      h : ℕ
      h = size.height

      cw : ℕ
      cw = chosen.rect.size.width

      ch : ℕ
      ch = chosen.rect.size.height
