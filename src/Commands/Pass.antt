-- ===== src/Commands/Pass.antt =====
-- GRAVITY_CMD_RENDER_BEGIN and GRAVITY_CMD_RENDER_END of `gravity_cmd_process_render`.
use gravity_gpu_project.Prelude.{
  ℕ, zero, suc, ◌+◌, Bool, true, false, Option, none, some, List, [], ◌∷◌, if◌then◌else◌, ◌==◌,
  take, get_elem?,
}
use gravity_gpu_project.Tracker.Resource.{TextureResource, of_texture, of_cmdbuf}
use gravity_gpu_project.Tracker.Table.{get, invalid_handle}
use gravity_gpu_project.Formats.Convert.{to_vk_load_op, to_vk_store_op}
use gravity_gpu_project.Payload.Pass.{
  ColorAttachmentAction, DepthAttachmentAction, CmdRenderBegin, CmdRenderEnd,
}
use gravity_gpu_project.Vulkan.Calls.{
  Attachment, Recorded, pipeline_barrier, begin_rendering, end_rendering, layout_color_attachment,
  layout_depth_stencil_attachment,
}
use gravity_gpu_project.Commands.Host.{Host, Machine, emit, with_payload, as_texture, as_cmdbuf}

-- The array of attachments on the stack: an element that was never written is `none`.
abbrev pub Slots : Type 0
Slots = List (Option Attachment)

-- all GRAVITY_MAX_COLOR_ATTACHMENTS elements
abbrev pub stack_slots : Slots
stack_slots = none ∷ none ∷ none ∷ none ∷ none ∷ none ∷ none ∷ none ∷ []

-- an assignment to the element at an index, which may be outside the array
unfoldable pub write_slot : Slots → ℕ → Attachment → Option Slots
write_slot [] k a = none
write_slot (s ∷ slots) zero a = some (some a ∷ slots)
write_slot (s ∷ slots) (suc k) a = elim (write_slot slots k a) [
  | none ↦ none
  | some slots' ↦ some (s ∷ slots')
]

module _ (machine : Machine) where
  -- the members of the entry's union as they stand now
  abbrev pub texture_of : Host → ℕ → TextureResource
  texture_of host i = as_texture machine (host.tracker.entries i).payload

  abbrev pub cmd_buf_of : Host → ℕ → ℕ
  cmd_buf_of host i = (as_cmdbuf machine (host.tracker.entries i).payload).cmd_buf

  -- a command recorded into the command buffer of entry `i`
  abbrev pub emit_at : Host → ℕ → Recorded → Host
  emit_at host i c = emit host (cmd_buf_of host i) c

  -- The layout transition of texture entry `t`, recorded into the command buffer of entry `i`.
  unfoldable pub transition : ColorAttachmentAction → ℕ → Host → ℕ → Host
  transition ca i host t =
      let texture = texture_of host t in
      let recorded = emit_at host i (
        pipeline_barrier (record {
          old_layout = texture.current_layout;
          new_layout = layout_color_attachment;
          image = texture.image;
          base_mip_level = ca.level;
          base_array_layer = ca.slice;
        })) in
      let moved = of_texture (record texture { current_layout = layout_color_attachment }) in
      if texture.current_layout == layout_color_attachment
      then host
      else record recorded { tracker = with_payload recorded.tracker t moved }

  -- one round of the loop over the color attachments
  unfoldable pub attach_color : ℕ → Host → ColorAttachmentAction → Host × Attachment
  unfolding transition
  attach_color i host ca =
      let found = get host.tracker ca.texture in
      (
        elim found [ none ↦ host | some t ↦ transition ca i host t ],
        record {
          image_view = elim found [ none ↦ 0 | some t ↦ (texture_of host t).image_view ];
          image_layout = layout_color_attachment;
          load_op = to_vk_load_op ca.load_action;
          store_op = to_vk_store_op ca.store_action;
          clear_value = ca.clear_color;
        },
      )

  -- The loop over the color attachments, `n` rounds from index `k` on: it reads the command's array
  -- and writes the one on the stack. `none` stands for an index that is outside one of them.
  unfoldable pub attach_colors :
      ℕ → ℕ → ℕ → List ColorAttachmentAction → Slots → Host → Option (Host × Slots)
  unfolding attach_color write_slot
  attach_colors i zero k actions slots host = some (host, slots)
  attach_colors i (suc n) k actions slots host = elim (get_elem? actions k) [
    | none ↦ none
    | some ca ↦
        let (host', attachment) = attach_color i host ca in
        elim (write_slot slots k attachment) [
          | none ↦ none
          | some slots' ↦ attach_colors i n (k + 1) actions slots' host'
        ]
  ]

  unfoldable pub depth_attachment : Host → DepthAttachmentAction → Option Attachment
  depth_attachment host action =
      if action.texture == invalid_handle then none else elim (get host.tracker action.texture) [
        | none ↦ none
        | some t ↦ some (record {
          image_view = (texture_of host t).image_view;
          image_layout = layout_depth_stencil_attachment;
          load_op = to_vk_load_op action.load_action;
          store_op = to_vk_store_op action.store_action;
          clear_value = action.clear_depth ∷ [];
        })
      ]

  -- the flag of the command buffer in entry `i`
  unfoldable pub set_in_pass : Host → ℕ → Bool → Host
  set_in_pass host i flag =
      let c = as_cmdbuf machine (host.tracker.entries i).payload in
      record host {
        tracker = with_payload host.tracker i (of_cmdbuf (record c { in_render_pass = flag }));
      }

  -- behind the loop, with the first attachments of the array
  unfoldable pub begin_pass : CmdRenderBegin → ℕ → Host × Slots → Host
  unfolding depth_attachment set_in_pass
  begin_pass cmd i (host₁, slots) =
      let begun = emit_at host₁ i (
        begin_rendering (record {
          area_x = cmd.render_area_x;
          area_y = cmd.render_area_y;
          area_width = cmd.render_area_width;
          area_height = cmd.render_area_height;
          color_attachments = take cmd.num_color_attachments slots;
          depth_attachment = depth_attachment host₁ cmd.depth_attachment;
        })) in
      set_in_pass begun i true

  -- `none` stands for an index of the loop that is outside an array: the count of the command is not
  -- checked.
  unfoldable pub render_begin : CmdRenderBegin → Host → Option Host
  unfolding begin_pass attach_colors
  render_begin cmd host = elim (get host.tracker cmd.cmdbuf) [
    | none ↦ some host
    | some i ↦
        let count = cmd.num_color_attachments in
        elim (attach_colors i count 0 cmd.color_attachments stack_slots host) [
          | none ↦ none
          | some done ↦ some (begin_pass cmd i done)
        ]
  ]

  unfoldable pub render_end : CmdRenderEnd → Host → Host
  unfolding set_in_pass
  render_end cmd host = elim (get host.tracker cmd.cmdbuf) [
    | none ↦ host
    | some i ↦
        if (as_cmdbuf machine (host.tracker.entries i).payload).in_render_pass
        then set_in_pass (emit_at host i end_rendering) i false
        else host
  ]
