-- ===== src/Tests/Daemon.antt =====
-- The daemon at a region in which one ping waits, and its start.
use gravity_gpu_project.Prelude.{
  ℕ, zero, suc, ◌+◌, ◌≢◌, inl, ◌*◌, ◌≡◌, refl, ap, true, false, none, some, List, [], ◌∷◌, ◌++◌,
  length, arith,
}
use gravity_gpu_project.Protocol.Opcode.{opcode}
use gravity_gpu_project.Protocol.Header.{load_header, cmd_init, header_bytes}
use gravity_gpu_project.Ring.Memory.{Ring, Shm, copy_in}
use gravity_gpu_project.Ring.Setup.{fresh_header}
use gravity_gpu_project.Ring.Command.{cmd_consume}
use gravity_gpu_project.Ring.Valid.{IsValid, cmd_queue, comp_queue}
use gravity_gpu_project.Ring.Layout.{IsReady}
use gravity_gpu_project.Tracker.Table.{init, get, count}
use gravity_gpu_project.Tracker.Free.{IsTracker, up as numbers}
use gravity_gpu_project.Vulkan.Objects.{alive}
use gravity_gpu_project.Tests.Tracker.{both, both_chain, found_96}
use gravity_gpu_project.Vulkan.Gpu.{select_physical_device}
use gravity_gpu_project.Vulkan.Families.{find_queue_families}
use gravity_gpu_project.Vulkan.Init.{Session, zeroed_state, vk_init}
use gravity_gpu_project.Commands.Host.{Host, send}
use gravity_gpu_project.Daemon.Dispatch.{
  Label, label_op, labels, select, run_label, run_selected, process_command, pong_bytes,
}
use gravity_gpu_project.Daemon.Loop.{Daemon, cmd_buf_size, poll, polls}
use gravity_gpu_project.Daemon.Quiet.{Kept, process_command-Kept}
use gravity_gpu_project.Daemon.Poll.{IsFramed, buffered, poll-front, poll-out_of_range}
use gravity_gpu_project.Daemon.Drain.{IsQuestion, answers, polls-answered}
use gravity_gpu_project.Daemon.Answer.{poll-ping}
use gravity_gpu_project.Daemon.Forget.{destroy-forgets}
use gravity_gpu_project.Daemon.Start.{
  Config, config_defaults, Posix, open_shared_memory, start, running,
}
use gravity_gpu_project.Daemon.Ready.{start-IsReady}
use gravity_gpu_project.Tests.Ring.{ring, message, shm, valid, waiting}
use gravity_gpu_project.Tests.Vulkan.{vulkan, machine, platform}

-- a buffer of `n` bytes
pub zero_bytes : ℕ → List ℕ
zero_bytes zero = []
zero_bytes (suc n) = 0 ∷ zero_bytes n

pub length-zero_bytes : (n : ℕ) → length (zero_bytes n) ≡ n
unfolding zero_bytes
length-zero_bytes zero = refl
length-zero_bytes (suc n) = ap suc (length-zero_bytes n)

abbrev pub host : Host
host = record { tracker = init; log = [] }

abbrev daemon : Daemon
daemon = record { shm = shm; host = host; cmd_buf = zero_bytes cmd_buf_size; total_cmds = 0 }

framed : IsFramed message
framed = record { long = omega arith; short = omega arith; framed = refl }

question : IsQuestion message
question = record { framed = framed; op = inl refl }

polls-answered_example :
    (d : Daemon) × (polls vulkan machine zeroed_state ring 1 daemon ≡ some d)
    × IsValid ring d.shm
    × (cmd_queue ring d.shm ≡ [])
    × (comp_queue ring d.shm ≡ answers 64 (comp_queue ring shm) (message ∷ []))
    × (d.total_cmds ≡ 1)
    × (d.host ≡ host)
polls-answered_example =
    polls-answered vulkan machine zeroed_state (message ∷ []) daemon valid
      (length-zero_bytes cmd_buf_size) (omega arith) waiting (question, tt)

pinged : (d : Daemon) × (poll vulkan machine zeroed_state ring daemon ≡ some d)
unfolding opcode
pinged =
    let (d, step, _, _, _) =
      poll-ping vulkan machine zeroed_state ring daemon valid (length-zero_bytes cmd_buf_size)
        message [] waiting framed refl in
    (d, step)

poll-front_example :
    IsValid ring pinged.0.shm
    × (cmd_queue ring pinged.0.shm ≡ [])
    × (length pinged.0.cmd_buf ≡ cmd_buf_size)
    × (pinged.0.total_cmds ≡ 1)
poll-front_example =
    poll-front vulkan machine zeroed_state daemon valid (length-zero_bytes cmd_buf_size) message []
      waiting framed (omega arith) pinged.1

handled :
    process_command vulkan machine zeroed_state ring (load_header message) message shm host
    ≡ some (send ring shm (pong_bytes 1), host)
unfolding process_command run_selected select labels label_op opcode run_label load_header
handled = refl

process_command-Kept_example : Kept ring shm (send ring shm (pong_bytes 1))
process_command-Kept_example =
    process_command-Kept valid vulkan machine zeroed_state (load_header message) message host
      handled

-- a command of 20 bytes with an opcode that is out of range
abbrev stranger : List ℕ
stranger = 255 ∷ 255 ∷ 0 ∷ 0 ∷ 20 ∷ 0 ∷ 0 ∷ 0 ∷ 1 ∷ 0 ∷ 0 ∷ 0 ∷ 0 ∷ 0 ∷ 0 ∷ 0 ∷ 3 ∷ 0 ∷ 0 ∷ 0 ∷ []

abbrev visited : Shm
visited = record {
  header = record (fresh_header 320 64 64) { cmd_tail = 20 };
  byte = copy_in 64 63 0 0 stranger (λ a. 0);
}

visited-IsValid : IsValid ring visited
unfolding fresh_header
visited-IsValid = record {
  cmd = record {
    width = 6;
    narrow = omega arith;
    size_eq = refl;
    mask_eq = refl;
    head_in = omega arith;
    tail_in = omega arith;
  };
  comp = record {
    width = 6;
    narrow = omega arith;
    size_eq = refl;
    mask_eq = refl;
    head_in = omega arith;
    tail_in = omega arith;
  };
  cmd_before_comp = omega arith;
  comp_before_data = omega arith;
}

stranger_waits : cmd_queue ring visited ≡ stranger ++ []
unfolding copy_in fresh_header
stranger_waits = refl

poll-out_of_range_example :
    (poll vulkan machine zeroed_state ring (record daemon { shm = visited })
      ≡ some (record daemon {
        shm = cmd_consume ring visited 16;
        cmd_buf = buffered stranger (zero_bytes cmd_buf_size);
      }))
    × (cmd_queue ring (cmd_consume ring visited 16) ≡ 3 ∷ 0 ∷ 0 ∷ 0 ∷ [])
poll-out_of_range_example =
    poll-out_of_range vulkan machine zeroed_state (record daemon { shm = visited }) visited-IsValid
      (length-zero_bytes cmd_buf_size) stranger [] stranger_waits
      (record { long = omega arith; short = omega arith; framed = refl }) (omega arith)

-- the destruction of the texture with handle 96
abbrev forget : List ℕ
forget = header_bytes (cmd_init 0x0211 20 1) ++ (96 ∷ 0 ∷ 0 ∷ 0 ∷ [])

abbrev holder : Host
holder = record { tracker = both; log = [] }

destroy-forgets_example :
    (host' : Host) × (process_command vulkan machine zeroed_state ring
        (cmd_init 0x0211 20 1)
        forget
        shm
        holder
      ≡ some (shm, host'))
    × (get host'.tracker 96 ≡ none)
    × IsTracker host'.tracker (1 ∷ numbers 2 65534)
    × (count host'.tracker + 1 ≡ count both)
    × ((j : ℕ) → 1 ≢ j → host'.tracker.entries j ≡ both.entries j)
    × (alive host'.log ≡ [])
unfolding cmd_init header_bytes opcode label_op alive
destroy-forgets_example =
    destroy-forgets vulkan machine zeroed_state ring Label.destroy_texture (cmd_init 0x0211 20 1)
      forget shm holder 1 refl refl both_chain found_96

abbrev pub cfg : Config
cfg = config_defaults 1

abbrev pub os : Posix
os = record {
  opens = λ path. none;
  creates = λ path. some 3;
  truncates = λ fd size. true;
  maps = λ fd size. some (λ a. 9);
}

abbrev pub up : Session
up = (vk_init vulkan platform false []).1

pub started : vk_init vulkan platform cfg.validation [] ≡ (true, up)
unfolding vk_init config_defaults select_physical_device find_queue_families
started = refl

pub mapped : open_shared_memory os cfg ≡ some (λ a. 9)
unfolding open_shared_memory config_defaults
mapped = refl

pub default_size : cfg.shmem_size ≡ 512 * 1024 * 1024
unfolding config_defaults
default_size = refl

start-IsReady_example :
    (s : Shm) × (r : Ring) × (start vulkan platform cfg [] os ≡ running r s up)
    × IsReady (512 * 1024 * 1024) 22 18 s r
start-IsReady_example =
    start-IsReady vulkan platform cfg [] os (λ a. 9) mapped 512 default_size (omega arith)
      (omega arith) started
