-- ===== src/Commands/Bounds.antt =====
-- The images that `gravity_cmd_process_create_texture` asks for, and the passes that begin.
use gravity_gpu_project.Prelude.{
  ℕ, Bool, max, mul32, ◌*◌, ◌^◌, ◌≤◌, ◌<◌, ◌≡◌, some, true, false, arith, ltb, if◌then◌else◌,
}
use gravity_gpu_project.Tracker.Table.{get}
use gravity_gpu_project.Payload.Create.{CmdCreateTexture}
use gravity_gpu_project.Payload.Pass.{ColorAttachmentAction}
use gravity_gpu_project.Vulkan.Calls.{layout_color_attachment}
use gravity_gpu_project.Commands.Host.{Host, Machine, with_payload, as_texture}
use gravity_gpu_project.Commands.Texture.{texture_image_info, samples_for, is_cube}
use gravity_gpu_project.Commands.Pass.{texture_of, transition, attach_color}

layers :
    (cube : Bool) (n : ℕ)
    → n * 6 < 2 ^ 32
    → (if cube then mul32 (if ltb 0 n then n else 1) 6 else (if ltb 0 n then n else 1))
      ≡ (if cube then 6 else 1) * max 1 n
layers true n small = ground arith
layers false n small = ground arith

-- For a texture with fewer than 2^32 / 6 layers and of 1 to 16 samples, the image that the daemon
-- asks for has at least one texel in each direction and one level, as many layers as asked for
-- and at least one, six times that for a cube, and at least the samples asked for, but less than
-- twice as many.
pub texture_image_info-bounds :
    (cmd : CmdCreateTexture) (format : ℕ)
    → cmd.array_length * 6 < 2 ^ 32
    → 1 ≤ cmd.sample_count
    → cmd.sample_count ≤ 16
    → let info = texture_image_info cmd format in
      (1 ≤ info.width)
      × (1 ≤ info.height)
      × (1 ≤ info.depth)
      × (1 ≤ info.mip_levels)
      × (info.array_layers ≡ (if is_cube cmd.texture_type then 6 else 1) * max 1 cmd.array_length)
      × (cmd.sample_count ≤ info.samples)
      × (info.samples < 2 * cmd.sample_count)
unfolding texture_image_info samples_for
texture_image_info-bounds cmd format small some_samples few = (
  ground arith,
  ground arith,
  ground arith,
  ground arith,
  layers (is_cube cmd.texture_type) cmd.array_length small,
  ground arith,
  ground arith,
)

transition-layout :
    (machine : Machine) (i t : ℕ) (host : Host) (ca : ColorAttachmentAction)
    → (texture_of machine (transition machine ca i host t) t).current_layout
      ≡ layout_color_attachment
unfolding transition with_payload as_texture
transition-layout machine i t host ca = ground arith

-- A texture that is attached is in the layout of a color attachment afterwards, whichever layout it
-- had.
pub attach_color-layout :
    (machine : Machine) (i t : ℕ) (host : Host) (ca : ColorAttachmentAction)
    → get host.tracker ca.texture ≡ some t
    → (texture_of machine (attach_color machine i host ca).0 t).current_layout
      ≡ layout_color_attachment
unfolding attach_color
attach_color-layout machine i t host ca e =
    rw (attach_color, e) (transition-layout machine i t host ca)
