-- ===== src/FrameStamp.antt =====
-- `FrameId` and `FrameStamp` of webrender/src/render_backend.rs, and the `DocumentId` of
-- webrender_api/src/api.rs that a stamp carries. A `SystemTime` is the nanoseconds since `UNIX_EPOCH`;
-- the current time is an argument.
use webrender.Prelude.{
  ℕ, ◌+◌, ◌-◌, ◌%◌, Bool, not, ◌&&◌, Run, done, panic, ◌==◌, leb, usize_mod, if◌then◌else◌,
}

pub record DocumentId : Type 0 where
  pub namespace_id : ℕ
  pub id : ℕ

abbrev pub document_invalid : DocumentId
document_invalid = record { namespace_id = 0; id = 0 }

-- The derived `==` of `DocumentId`.
abbrev pub same_document : DocumentId → DocumentId → Bool
same_document a b = a.namespace_id == b.namespace_id && a.id == b.id

-- `FrameId(usize)` is its number.
abbrev pub frame_first : ℕ
frame_first = 0

abbrev pub frame_invalid : ℕ
frame_invalid = 0

abbrev pub frame_advance : ℕ → ℕ
frame_advance id = (id + 1) % usize_mod

abbrev pub frame_add : ℕ → ℕ → ℕ
frame_add id other = (id + other) % usize_mod

-- `Sub`, with its assertion.
abbrev pub frame_sub : ℕ → ℕ → Run ℕ
frame_sub id other = if leb other id then done (id - other) else panic

pub record FrameStamp : Type 0 where
  pub id : ℕ
  pub time : ℕ
  pub document_id : DocumentId

abbrev pub stamp_invalid : FrameStamp
stamp_invalid = record { id = frame_invalid; time = 0; document_id = document_invalid }

abbrev pub is_valid : FrameStamp → Bool
is_valid s = not (same_document s.document_id document_invalid)

abbrev pub stamp_first : ℕ → DocumentId → FrameStamp
stamp_first now document_id = record { id = frame_first; time = now; document_id = document_id }

abbrev pub stamp_advance : ℕ → FrameStamp → FrameStamp
stamp_advance now s = record s { id = frame_advance s.id; time = now }
