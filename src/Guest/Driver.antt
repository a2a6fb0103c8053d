-- ===== src/Guest/Driver.antt =====
-- The driver's methods over the device's registers and the shared region. The kernel's own objects
-- are left out; `mapped` says whether the two windows of the device are mapped.
use gravity_gpu_project.Prelude.{
  ℕ, zero, suc, ◌+◌, ◌*◌, ◌/◌, ◌%◌, ◌^◌, Bool, true, false, Option, none, some, List, ◌++◌,
  if◌then◌else◌, not, ◌==◌, bit_and, bytes16, bytes32,
}
use gravity_gpu_project.Protocol.Opcode.{CmdOp, opcode}
use gravity_gpu_project.Protocol.Header.{header_size, cmd_init, header_bytes}
use gravity_gpu_project.Ring.Memory.{Shm, Ring}
use gravity_gpu_project.Ring.Setup.{attach}
use gravity_gpu_project.Ring.Command.{cmd_write}
use gravity_gpu_project.Ring.Completion.{ReadResult, received, comp_read}
use gravity_gpu_project.Ring.Region.{data_write}
use gravity_gpu_project.Device.State.{
  Device, address, reg_magic, reg_device_status, reg_guest_features, reg_guest_status, reg_doorbell,
  protocol_magic, device_ready,
}
use gravity_gpu_project.Device.Mmio.{mmio_read, mmio_write}
use gravity_gpu_project.Payload.System.{CmdHello, sizeof_hello}

-- the driver with what it sees: the device and the region behind its second window
pub record Guest : Type 0 where
  pub device : Device
  pub shm : Shm
  pub ring : Ring
  pub sequence : ℕ
  pub mapped : Bool

-- GRAVITY_GUEST_INIT, _READY and _ERROR
abbrev pub guest_init : ℕ
guest_init = 1

abbrev pub guest_ready : ℕ
guest_ready = 2

abbrev pub guest_error : ℕ
guest_error = 255

-- `probe`, by the vendor and the device of the configuration space
unfoldable pub probe : ℕ → ℕ → Bool
probe vendor device = if vendor == 0x1af4 then device == 0x10de else false

-- `mmioRead32` and `mmioWrite32`: an access of 32 bits at a multiple of four
unfoldable pub mmio_read32 : Guest → ℕ → ℕ
mmio_read32 g offset = if g.mapped then mmio_read g.device (offset / 4 * 4) 4 else 0

unfoldable pub mmio_write32 : Guest → ℕ → ℕ → Guest
mmio_write32 g offset value =
    let written = record g { device = mmio_write g.device (offset / 4 * 4) value 4 } in
    if g.mapped then written else g

-- `none` stands for the result -1; the doorbell rings for an accepted command.
unfoldable pub submit_command : Guest → List ℕ → Option Guest
unfolding mmio_write32
submit_command g cmd = elim (cmd_write g.ring g.shm cmd) [
  | none ↦ none
  | some shm ↦ some (mmio_write32 (record g { shm = shm }) (address reg_doorbell) 1)
]

unfoldable pub read_completion : Guest → List ℕ → ReadResult × List ℕ × Guest
read_completion g out_buf =
    let (result, buf, shm) = comp_read g.ring g.shm out_buf in (result, buf, record g { shm = shm })

-- `writeData`: the offset of the block
unfoldable pub write_data : Guest → List ℕ → Option (ℕ × Guest)
write_data g block = elim (data_write g.ring g.shm block) [
  | none ↦ none
  | some (offset, ring, shm) ↦ some (offset, record g { ring = ring; shm = shm })
]

-- `nextSequence`: the number, with the state that has counted it
unfoldable pub next_sequence : Guest → ℕ × Guest
next_sequence g = let n = (g.sequence + 1) % 2 ^ 32 in (n, record g { sequence = n })

-- `mapBARs`, with both windows there to be mapped: the magic of the device is compared.
unfoldable pub map_bars : Guest → Bool × Guest
unfolding mmio_read32
map_bars g =
    let opened = record g { mapped = true } in
    (mmio_read32 opened (address reg_magic) == protocol_magic, opened)

unfoldable pub unmap_bars : Guest → Guest
unmap_bars g = record g { mapped = false }

unfoldable pub initialize_device : Guest → Bool × Guest
unfolding mmio_read32 mmio_write32
initialize_device g =
    let status = mmio_read32 g (address reg_device_status) in
    if bit_and status device_ready == 0 then (false, g) else elim (attach g.shm) [
      | none ↦ (false, g)
      | some ring ↦
          (true, mmio_write32 (record g { ring = ring }) (address reg_guest_status) guest_init)
    ]

-- GRAVITY_FEAT_RING_BUFFER, _SHADER_MSL and _DISPLAY
abbrev pub our_features : ℕ
our_features = 2 ^ 0 + 2 ^ 1 + 2 ^ 6

unfoldable pub hello : ℕ → CmdHello
hello sequence = record {
  hdr = cmd_init (opcode CmdOp.hello) sizeof_hello sequence;
  magic = protocol_magic;
  version_major = 0;
  version_minor = 1;
  guest_features = our_features;
}

-- the bytes of a hello, with the four reserved words cleared
unfoldable pub hello_bytes : CmdHello → List ℕ
hello_bytes h =
    header_bytes h.hdr
    ++ (bytes32 h.magic
        ++ (bytes16 h.version_major
            ++ (bytes16 h.version_minor
                ++ (bytes32 h.guest_features
                    ++ (bytes32 0 ++ (bytes32 0 ++ (bytes32 0 ++ bytes32 0)))))))

-- whether `resp_size > 0`
abbrev pub is_received : ReadResult → Bool
is_received (received n) = not (n == 0)
is_received _ = false

-- The wait for the response, with `n` polls left: `delay` is what the host does meanwhile.
unfoldable pub wait_response : (Guest → Guest) → ℕ → Guest → List ℕ → Guest × List ℕ
unfolding read_completion
wait_response delay zero g buf = (g, buf)
wait_response delay (suc n) g buf =
    let (result, buf', g') = read_completion g buf in
    let rest = wait_response delay n (delay g') buf' in
    if is_received result then (g', buf') else rest

-- What follows the acceptance of the hello: whether a response has come makes no difference.
unfoldable pub greeted : (Guest → Guest) → List ℕ → Guest → Guest
unfolding wait_response mmio_write32
greeted delay buf g =
    let rung = mmio_write32 g (address reg_doorbell) 1 in
    mmio_write32 (wait_response delay 1000 rung buf).0 (address reg_guest_status) guest_ready

-- `negotiateFeatures`
unfoldable pub negotiate_features : (Guest → Guest) → List ℕ → Guest → Bool × Guest
unfolding submit_command greeted hello hello_bytes next_sequence mmio_write32
negotiate_features delay buf g =
    let told = mmio_write32 g (address reg_guest_features) our_features in
    let (n, counted) = next_sequence told in
    elim (submit_command counted (hello_bytes (hello n))) [
      | none ↦ (false, counted)
      | some sent ↦ (true, greeted delay buf sent)
    ]

-- `start`, once the kernel has given the driver its device
unfoldable pub start : (Guest → Guest) → List ℕ → Guest → Bool × Guest
unfolding map_bars unmap_bars initialize_device negotiate_features
start delay buf g =
    let (magic_ok, opened) = map_bars g in
    let (ready, attached) = initialize_device opened in
    let (agreed, greeted_guest) = negotiate_features delay buf attached in
    if not magic_ok
    then (false, opened)
    else if not ready
    then (false, unmap_bars attached)
    else if not agreed
    then (false, unmap_bars greeted_guest)
    else (true, greeted_guest)

-- `stop`: a goodbye that may be refused, and the status
unfoldable pub stop : Guest → Guest
unfolding submit_command next_sequence unmap_bars mmio_write32
stop g =
    let (n, counted) = next_sequence g in
    let goodbye = header_bytes (cmd_init (opcode CmdOp.goodbye) header_size n) in
    let said : Guest = elim (submit_command counted goodbye) [
      | none ↦ counted
      | some sent ↦ sent
    ] in
    unmap_bars (mmio_write32 said (address reg_guest_status) guest_error)
