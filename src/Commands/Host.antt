-- ===== src/Commands/Host.antt =====
-- What the handlers of host-daemon/src/cmd_processor.c share: the state they change, and the
-- members of an entry's union.
use gravity_gpu_project.Prelude.{ℕ, ◌+◌, zero, suc, List, [], ◌∷◌, none, some}
use gravity_gpu_project.Ring.Memory.{Shm, Ring, Memory}
use gravity_gpu_project.Ring.Completion.{comp_write}
use gravity_gpu_project.Tracker.Resource.{
  Payload, of_buffer, of_texture, of_cmdbuf, BufferResource, TextureResource, CmdbufResource,
}
use gravity_gpu_project.Tracker.Table.{Tracker, update}
use gravity_gpu_project.Vulkan.Calls.{Call, Log, Recorded, record_into}

-- the tracker and the Vulkan library
pub record Host : Type 0 where
  pub tracker : Tracker
  pub log : Log

-- What the compiler and the machine fix: the floats, and what a member of the union reads when
-- another one was written last.
pub record Machine : Type 0 where
  pub float_add : ℕ → ℕ → ℕ
  pub float_neg : ℕ → ℕ
  pub float_of_u32 : ℕ → ℕ
  pub other_buffer : Payload → BufferResource
  pub other_texture : Payload → TextureResource
  pub other_cmdbuf : Payload → CmdbufResource

module _ (machine : Machine) where
  unfoldable pub as_buffer : Payload → BufferResource
  as_buffer p = elim p [ of_buffer r ↦ r | other ↦ machine.other_buffer other ]

  unfoldable pub as_texture : Payload → TextureResource
  as_texture p = elim p [ of_texture r ↦ r | other ↦ machine.other_texture other ]

  unfoldable pub as_cmdbuf : Payload → CmdbufResource
  as_cmdbuf p = elim p [ of_cmdbuf r ↦ r | other ↦ machine.other_cmdbuf other ]

-- a call that the library has been given
abbrev pub call : Host → Call → Host
call host c = record host { log = c ∷ host.log }

-- a command recorded into a command buffer
abbrev pub emit : Host → ℕ → Recorded → Host
emit host cmd_buf c = call host (record_into cmd_buf c)

-- the tracker with another union in entry `i`
unfoldable pub with_payload : Tracker → ℕ → Payload → Tracker
with_payload t i p = record t {
  entries = update t.entries i (record (t.entries i) { payload = p });
}

-- `n` bytes from offset `a` on
unfoldable pub bytes_at : Memory → ℕ → ℕ → List ℕ
bytes_at m a zero = []
bytes_at m a (suc n) = m a ∷ bytes_at m (a + 1) n

-- `gravity_ring_comp_write` with its result ignored
unfoldable pub send : Ring → Shm → List ℕ → Shm
send ring shm bytes = elim (comp_write ring shm bytes) [ none ↦ shm | some shm' ↦ shm' ]
