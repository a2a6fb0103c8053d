-- ===== src/Daemon/Start.antt =====
-- The configuration and the start of `main` in host-daemon/src/main.c, up to its loop.
use gravity_gpu_project.Prelude.{
  ℕ, ◌*◌, ◌%◌, ◌^◌, Bool, true, false, Option, none, some, List, [], ◌∷◌, if◌then◌else◌, u32,
}
use gravity_gpu_project.Ring.Memory.{Memory, Shm, Ring}
use gravity_gpu_project.Ring.Setup.{InitResult, hangs, failed, done, init_host, attach}
use gravity_gpu_project.Vulkan.Calls.{Vulkan, Log}
use gravity_gpu_project.Vulkan.Init.{Platform, Session, Outcome, vk_init}

-- `gravity_config_t`; the path is a name that the operating system knows
pub record Config : Type 0 where
  pub shmem_path : ℕ
  pub shmem_size : ℕ
  pub verbose : Bool
  pub trace_commands : Bool
  pub validation : Bool

-- `config_defaults`, with the name of the default path
unfoldable pub config_defaults : ℕ → Config
config_defaults path = record {
  shmem_path = path;
  shmem_size = 512 * 1024 * 1024;
  verbose = false;
  trace_commands = false;
  validation = false;
}

-- What `getopt_long` returns, one after another. The argument of `-m` is what `atol` makes of it,
-- as a `size_t`.
pub data Opt : Type 0 where
  opt_shmem : ℕ → Opt
  opt_memsize : ℕ → Opt
  opt_verbose opt_trace opt_validation opt_help opt_unknown : Opt

-- The configuration, or the exit status after the usage has been printed.
pub data Parsed : Type 0 where
  configured : Config → Parsed
  exits : ℕ → Parsed

unfoldable pub parse_options : List Opt → Config → Parsed
parse_options [] cfg = configured cfg
parse_options (opt_shmem path ∷ opts) cfg = parse_options opts (record cfg { shmem_path = path })
parse_options (opt_memsize n ∷ opts) cfg =
    parse_options opts (record cfg { shmem_size = n * 1024 * 1024 % 2 ^ 64 })
parse_options (opt_verbose ∷ opts) cfg = parse_options opts (record cfg { verbose = true })
parse_options (opt_trace ∷ opts) cfg = parse_options opts (record cfg { trace_commands = true })
parse_options (opt_validation ∷ opts) cfg = parse_options opts (record cfg { validation = true })
parse_options (opt_help ∷ opts) cfg = exits 0
parse_options (opt_unknown ∷ opts) cfg = exits 1

-- What the operating system answers: to the two calls of `shm_open`, the second of which creates the
-- object, to `ftruncate` and to `mmap`, with the bytes of the object.
pub record Posix : Type 0 where
  pub opens : ℕ → Option ℕ
  pub creates : ℕ → Option ℕ
  pub truncates : ℕ → ℕ → Bool
  pub maps : ℕ → ℕ → Option Memory

unfoldable pub map_region : Posix → Config → Option ℕ → Option Memory
map_region os cfg none = none
map_region os cfg (some fd) =
    if os.truncates fd cfg.shmem_size then os.maps fd cfg.shmem_size else none

-- `none` stands for NULL
unfoldable pub open_shared_memory : Posix → Config → Option Memory
unfolding map_region
open_shared_memory os cfg =
    map_region os cfg
      (elim (os.opens cfg.shmem_path) [ none ↦ os.creates cfg.shmem_path | some fd ↦ some fd ])

-- What `main` comes to before its loop: it runs, it exits with status 1, or the layout of the ring
-- does not end.
pub data Started : Type 0 where
  running : Ring → Shm → Session → Started
  exited : Log → Started
  stuck : Started

-- the rounds of the ring's two loops, which are enough for the sizes here
abbrev pub ring_fuel : ℕ
ring_fuel = 32

module _ (vulkan : Vulkan) (platform : Platform) (cfg : Config) (log : Log) where
  unfoldable pub vk_started : Ring → Shm → Outcome → Started
  vk_started ring shm (true, session) = running ring shm session
  vk_started ring shm (false, session) = exited session.log

  unfoldable pub ring_attached : Shm → Option Ring → Started
  unfolding vk_started
  ring_attached shm none = exited log
  ring_attached shm (some ring) = vk_started ring shm (vk_init vulkan platform cfg.validation log)

  unfoldable pub ring_made : InitResult → Started
  unfolding ring_attached
  ring_made hangs = stuck
  ring_made failed = exited log
  ring_made (done shm) = ring_attached shm (attach shm)

  -- The ring is laid out anew, with 4 MB of commands and 256 KB of completions, in a region whose
  -- size is cut to 32 bits.
  unfoldable pub region_mapped : Option Memory → Started
  unfolding ring_made
  region_mapped none = exited log
  region_mapped (some m) =
      ring_made (init_host ring_fuel m (u32 cfg.shmem_size) (4 * 1024 * 1024) (256 * 1024))

  unfoldable pub start : Posix → Started
  unfolding region_mapped
  start os = region_mapped (open_shared_memory os cfg)
