-- ===== src/Device/Irq.antt =====
-- The interrupt line of the device.
use gravity_gpu_project.Prelude.{
  ◌⊎◌, inl, inr, ap, sym, ◌∙◌, subst, ℕ_discrete, ℕ, ◌≡◌, ◌≢◌, true, false, arith, u32, not32,
  bit_and, bit_or, List, [], ◌∷◌,
}
use gravity_gpu_project.Prelude.Bits.{bit_and-zero, bit_or-zero}
use gravity_gpu_project.Device.State.{Device}
use gravity_gpu_project.Device.Mmio.{mmio_write, clear_irq, raise_irq}

-- what the guest and the host side do to the device
pub data Event : Type 0 where
  writes : ℕ → ℕ → ℕ → Event
  raises : ℕ → Event

abbrev pub after : Device → Event → Device
after d (writes addr val size) = mmio_write d addr val size
after d (raises bits) = raise_irq d bits

abbrev pub run : Device → List Event → Device
run d [] = d
run d (e ∷ es) = run (after d e) es

-- While the line is up, an interrupt is pending.
abbrev pub IsLevel : Device → Type 0
IsLevel d = (d.irq_line ≡ false) ⊎ (d.irq_status ≢ 0)

clear-IsLevel : (d : Device) (val : ℕ) → IsLevel d → IsLevel (clear_irq d val)
unfolding clear_irq
clear-IsLevel d val v = elim (ℕ_discrete (bit_and d.irq_status (not32 (u32 val))) 0) [
  | yes e ↦ inl (ground arith)
  | no ne ↦ inr ne
]

-- Any other write leaves the line and the status.
mmio_write-cases :
    (d : Device) (addr val size : ℕ)
    → (mmio_write d addr val size ≡ clear_irq d val)
      ⊎ (((mmio_write d addr val size).irq_line ≡ d.irq_line)
          × ((mmio_write d addr val size).irq_status ≡ d.irq_status))
unfolding mmio_write
mmio_write-cases d addr val size = ground arith

write-IsLevel : (d : Device) (addr val size : ℕ) → IsLevel d → IsLevel (mmio_write d addr val size)
write-IsLevel d addr val size v = elim (mmio_write-cases d addr val size) [
  | inl e ↦ subst IsLevel (sym e) (clear-IsLevel d val v)
  | inr (line, status) ↦ elim v [
    | inl down ↦ inl (line ∙ down)
    | inr pending ↦ inr (λ z. pending (sym status ∙ z))
  ]
]

raise-IsLevel : (d : Device) (bits : ℕ) → IsLevel d → IsLevel (raise_irq d bits)
unfolding raise_irq
raise-IsLevel d bits v = elim (ℕ_discrete (bit_and (bit_or d.irq_status bits) d.irq_mask) 0) [
  | no ne ↦ inr (λ z. ne (ap (λ s. bit_and s d.irq_mask) z ∙ bit_and-zero d.irq_mask))
  | yes e ↦ elim v [
    | inl down ↦ inl (ground arith)
    | inr pending ↦ inr (λ z. pending (bit_or-zero d.irq_status bits z))
  ]
]

-- From a device whose interrupt line is down or has an interrupt pending, every sequence of
-- register writes and raised interrupts leads to such a device again.
pub run-IsLevel : (es : List Event) (d : Device) → IsLevel d → IsLevel (run d es)
run-IsLevel [] d v = v
run-IsLevel (writes addr val size ∷ es) d v =
    run-IsLevel es (mmio_write d addr val size) (write-IsLevel d addr val size v)
run-IsLevel (raises bits ∷ es) d v = run-IsLevel es (raise_irq d bits) (raise-IsLevel d bits v)

-- Raising bits of which one is enabled puts the line up.
pub raise_irq-line :
    (d : Device) (bits : ℕ)
    → bit_and (bit_or d.irq_status bits) d.irq_mask ≢ 0
    → (raise_irq d bits).irq_line ≡ true
unfolding raise_irq
raise_irq-line d bits h = ground arith
