-- ===== src/Commands/Overrun.antt =====
-- The arrays that the begin of a render pass runs over.
use gravity_gpu_project.Prelude.{
  ℕ, zero, suc, ◌+◌, ◌≤◌, ◌<◌, ◌≡◌, ◌↔◌, refl, ap, ◌∙◌, sym, none, some, List, [], ◌∷◌, length,
  arith, inl, inr, Option-cases, none_ne_some, get_elem?, ℕ_discrete, Bool-cases, ltb, ltb→lt,
}
use gravity_gpu_project.Tracker.Table.{get}
use gravity_gpu_project.Payload.Load.{load_array, max_color_attachments}
use gravity_gpu_project.Payload.Pass.{
  CmdRenderBegin, ColorAttachmentAction, load_render_begin, load_color_attachment_action,
}
use gravity_gpu_project.Vulkan.Calls.{Attachment}
use gravity_gpu_project.Commands.Host.{Host, Machine}
use gravity_gpu_project.Commands.Pass.{
  Slots, stack_slots, write_slot, attach_color, attach_colors, begin_pass, render_begin,
}

write_slot-in :
    (slots : Slots) (k : ℕ) (a : Attachment)
    → k < length slots
    → (slots' : Slots) × (write_slot slots k a ≡ some slots') × (length slots' ≡ length slots)
unfolding write_slot
write_slot-in [] k a h = absurd (omega arith)
write_slot-in (s ∷ slots) zero a h = (some a ∷ slots, refl, refl)
write_slot-in (s ∷ slots) (suc k) a h =
    let (slots', e, same) = write_slot-in slots k a (omega arith) in
    (s ∷ slots', rw (write_slot, e) refl, omega (arith, same))

write_slot-out :
    (slots : Slots) (k : ℕ) (a : Attachment) → length slots ≤ k → write_slot slots k a ≡ none
unfolding write_slot
write_slot-out [] k a h = refl
write_slot-out (s ∷ slots) zero a h = absurd (omega arith)
write_slot-out (s ∷ slots) (suc k) a h =
    rw (write_slot, write_slot-out slots k a (omega arith)) refl

get_elem-in :
    (actions : List ColorAttachmentAction) (k : ℕ)
    → k < length actions
    → (ca : ColorAttachmentAction) × (get_elem? actions k ≡ some ca)
get_elem-in [] k h = absurd (omega arith)
get_elem-in (ca ∷ actions) zero h = (ca, refl)
get_elem-in (ca ∷ actions) (suc k) h = get_elem-in actions k (omega arith)

module _ (machine : Machine) (i : ℕ) (actions : List ColorAttachmentAction) where
  attach_colors-in :
      (n k : ℕ) (slots : Slots) (host : Host)
      → k + n ≤ length actions
      → k + n ≤ length slots
      → (done : Host × Slots) × (attach_colors machine i n k actions slots host ≡ some done)
  unfolding attach_colors
  attach_colors-in zero k slots host ha hs = ((host, slots), refl)
  attach_colors-in (suc n) k slots host ha hs =
      let (ca, read) = get_elem-in actions k (omega arith) in
      let (host', attachment) = attach_color machine i host ca in
      let (slots', written, same) = write_slot-in slots k attachment (omega arith) in
      let (done, rest) =
        attach_colors-in n (k + 1) slots' host' (omega arith) (omega (arith, same)) in
      (done, rw (attach_colors, read, written) rest)

  attach_colors-out :
      (n k : ℕ) (slots : Slots) (host : Host)
      → k ≤ length slots
      → length slots < k + n
      → attach_colors machine i n k actions slots host ≡ none
  unfolding attach_colors
  attach_colors-out zero k slots host at far = absurd (omega arith)
  attach_colors-out (suc n) k slots host at far = elim (Option-cases (get_elem? actions k)) [
    | inl e ↦ rw (attach_colors, e) refl
    | inr (ca, read) ↦
        let (host', attachment) = attach_color machine i host ca in
        elim (ℕ_discrete k (length slots)) [
          | yes end ↦ rw (attach_colors, read, write_slot-out slots k attachment (omega arith)) refl
          | no more ↦
              let (slots', written, same) = write_slot-in slots k attachment (omega arith) in
              rw (attach_colors, read, written)
                (attach_colors-out n (k + 1) slots' host' (omega (arith, same))
                  (omega (arith, same)))
        ]
  ]

length-load_array :
    (n width : ℕ) (buf : List ℕ) (at : ℕ)
    → length (load_array load_color_attachment_action n width buf at) ≡ n
unfolding load_array
length-load_array zero width buf at = refl
length-load_array (suc n) width buf at = ap suc (length-load_array n width buf (at + width))

length-actions : (buf : List ℕ) → length (load_render_begin buf).color_attachments ≡ 8
unfolding load_render_begin
length-actions buf = length-load_array 8 36 buf 24

module _ (machine : Machine) (cmd : CmdRenderBegin) (host : Host) where
  begin-unknown : get host.tracker cmd.cmdbuf ≡ none → render_begin machine cmd host ≡ some host
  unfolding render_begin
  begin-unknown e = rw (render_begin, e) refl

  module _ (eight : length cmd.color_attachments ≡ 8) (i : ℕ)
      (e : get host.tracker cmd.cmdbuf ≡ some i) where
    begin-overruns : 8 < cmd.num_color_attachments → render_begin machine cmd host ≡ none
    unfolding render_begin
    begin-overruns many =
        let out =
          attach_colors-out machine i cmd.color_attachments cmd.num_color_attachments 0 stack_slots
            host (omega arith) (omega arith) in
        rw (render_begin, e, out) refl

    begin-returns :
        cmd.num_color_attachments ≤ 8
        → (host' : Host) × (render_begin machine cmd host ≡ some host')
    unfolding render_begin
    begin-returns few =
        let (done, in_bounds) =
          attach_colors-in machine i cmd.color_attachments cmd.num_color_attachments 0 stack_slots
            host (omega (arith, eight, few)) (omega arith) in
        (begin_pass machine cmd i done, rw (render_begin, e, in_bounds) refl)

-- Whatever the bytes of the command are, the loop at the begin of a pass leaves the arrays of
-- color attachments exactly when the tracker knows the command buffer's handle and the command
-- asks for more than eight attachments.
pub render_begin-undefined :
    (machine : Machine) (buf : List ℕ) (host : Host)
    → let cmd = load_render_begin buf in
      (render_begin machine cmd host ≡ none) ↔ (
        ((i : ℕ) × (get host.tracker cmd.cmdbuf ≡ some i))
        × (max_color_attachments < cmd.num_color_attachments))
render_begin-undefined machine buf host =
    let cmd = load_render_begin buf in
    let eight = length-actions buf in
    (
      λ undefined. elim (Option-cases (get host.tracker cmd.cmdbuf)) [
        | inl e ↦ absurd (none_ne_some (sym undefined ∙ begin-unknown machine cmd host e))
        | inr (i, e) ↦ elim (Bool-cases (ltb 8 cmd.num_color_attachments)) [
          | inl many ↦ ((i, e), ltb→lt _ _ many)
          | inr few ↦
              let (host', returns) = begin-returns machine cmd host eight i e (ground arith) in
              absurd (none_ne_some (sym undefined ∙ returns))
        ]
      ],
      λ r. begin-overruns machine cmd host eight r.0.0 r.0.1 r.1,
    )
