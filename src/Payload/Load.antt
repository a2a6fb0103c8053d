-- ===== src/Payload/Load.antt =====
-- The fields of the packed payloads that overlay the command buffer, little-endian.
use gravity_gpu_project.Prelude.{ℕ, zero, suc, ◌+◌, ◌*◌, ◌^◌, List, [], ◌∷◌, get_or, load32}
use gravity_gpu_project.Tracker.Resource.{StencilDesc}

abbrev pub max_color_attachments : ℕ
max_color_attachments = 8

abbrev pub max_vertex_buffers : ℕ
max_vertex_buffers = 31

abbrev pub max_vertex_attributes : ℕ
max_vertex_attributes = 31

abbrev pub load8 : List ℕ → ℕ → ℕ
load8 buf i = get_or buf i 0

abbrev pub load64 : List ℕ → ℕ → ℕ
load64 buf i = load32 buf i + 2 ^ 32 * load32 buf (i + 4)

-- `n` elements of `width` bytes each, from offset `i` on
unfoldable pub load_array {ℓ} : {A : Type ℓ} → (List ℕ → ℕ → A) → ℕ → ℕ → List ℕ → ℕ → List A
load_array load zero width buf i = []
load_array load (suc n) width buf i = load buf i ∷ load_array load n width buf (i + width)

-- `gravity_stencil_desc_t`
unfoldable pub load_stencil_desc : List ℕ → ℕ → StencilDesc
load_stencil_desc buf i = record {
  compare = load32 buf i;
  stencil_fail_op = load32 buf (i + 4);
  depth_fail_op = load32 buf (i + 8);
  depth_stencil_pass_op = load32 buf (i + 12);
  read_mask = load32 buf (i + 16);
  write_mask = load32 buf (i + 20);
}
