-- ===== src/Images.antt =====
-- Image formats, descriptors and dirty rectangles: webrender_api/src/image.rs, and `CachedImageData` of
-- webrender/src/resource_cache.rs. An `i32` is its bit pattern.
use webrender.Prelude.{ℕ, List, Option, none, some, Bool, ◌==◌, ◌&&◌}
use webrender.Prelude.I32.{mul_i32}
use webrender.TextureAllocator.{DeviceIntSize, DeviceIntRect}

pub data ImageFormat : Type 0 where
  r8 r16 bgra8 rgbaf32 rg8 rgbai32 rgba8 : ImageFormat

-- The discriminant, by which the derived `==` compares.
abbrev pub format_code : ImageFormat → ℕ
format_code r8 = 1
format_code r16 = 2
format_code bgra8 = 3
format_code rgbaf32 = 4
format_code rg8 = 5
format_code rgbai32 = 6
format_code rgba8 = 7

abbrev pub same_format : ImageFormat → ImageFormat → Bool
same_format a b = format_code a == format_code b

abbrev pub bytes_per_pixel : ImageFormat → ℕ
bytes_per_pixel r8 = 1
bytes_per_pixel r16 = 2
bytes_per_pixel bgra8 = 4
bytes_per_pixel rgbaf32 = 16
bytes_per_pixel rg8 = 2
bytes_per_pixel rgbai32 = 16
bytes_per_pixel rgba8 = 4

abbrev pub same_size : DeviceIntSize → DeviceIntSize → Bool
same_size a b = a.width == b.width && a.height == b.height

pub record ImageDescriptor : Type 0 where
  pub format : ImageFormat
  pub size : DeviceIntSize
  pub stride : Option ℕ
  pub offset : ℕ
  pub is_opaque : Bool
  pub allow_mipmaps : Bool

abbrev pub new_descriptor : ℕ → ℕ → ImageFormat → Bool → Bool → ImageDescriptor
new_descriptor width height format is_opaque allow_mipmaps = record {
  size = record { width = width; height = height };
  format = format;
  stride = none;
  offset = 0;
  is_opaque = is_opaque;
  allow_mipmaps = allow_mipmaps;
}

-- `Option::unwrap_or`
abbrev pub unwrap_or {ℓ} : {A : Type ℓ} → Option A → A → A
unwrap_or none a = a
unwrap_or (some b) a = b

abbrev pub compute_stride : ImageDescriptor → ℕ
compute_stride d = unwrap_or d.stride (mul_i32 d.size.width (bytes_per_pixel d.format))

abbrev pub compute_total_size : ImageDescriptor → ℕ
compute_total_size d = mul_i32 (compute_stride d) d.size.height

-- `DirtyRect`, of device pixels.
pub data DirtyRect : Type 0 where
  all : DirtyRect
  partial : DeviceIntRect → DirtyRect

pub data ExternalImageType : Type 0 where
  texture_handle buffer : ExternalImageType

pub record ExternalImageData : Type 0 where
  pub id : ℕ
  pub channel_index : ℕ
  pub image_type : ExternalImageType

pub data CachedImageData : Type 0 where
  raw : List ℕ → CachedImageData
  blob : CachedImageData
  external : ExternalImageData → CachedImageData
