-- ===== src/Guest/Client.antt =====
-- The user client of the guest's driver (guest-driver/GravityGPU/GravityGPUUserClient.cpp), and the
-- ping of the test application (guest-userspace/main.cpp).
use gravity_gpu_project.Prelude.{
  ℕ, ◌%◌, ◌/◌, ◌^◌, Option, none, some, List, ◌++◌, if◌then◌else◌, ◌==◌, length, bytes16, bytes32,
}
use gravity_gpu_project.Guest.Driver.{Guest, submit_command}

-- `IOReturn`, by name
pub data IoReturn : Type 0 where
  success error bad_argument not_ready unsupported : IoReturn

unfoldable pub submitted_by : Guest → Option Guest → IoReturn × Guest
submitted_by g none = (error, g)
submitted_by g (some sent) = (success, sent)

-- `sSubmitCommand` with the bytes of the input, none for no structure; no provider is `none`.
unfoldable pub s_submit_command : Option Guest → List ℕ → IoReturn × Option Guest
unfolding submitted_by submit_command
s_submit_command none input = (not_ready, none)
s_submit_command (some g) input =
    let (result, g') = submitted_by g (submit_command g input) in
    if length input == 0 then (bad_argument, some g) else (result, some g')

-- `externalMethod`
unfoldable pub external_method : ℕ → Option Guest → List ℕ → IoReturn × Option Guest
unfolding s_submit_command
external_method selector provider input =
    if selector == 0 then s_submit_command provider input else (bad_argument, provider)

unfoldable pub bytes64 : ℕ → List ℕ
bytes64 n = bytes32 (n % 2 ^ 32) ++ bytes32 (n / 2 ^ 32)

-- `gravity_cmd_hdr_t` of the application: its size has 16 bits, and its flags follow the size.
unfoldable pub user_header_bytes : ℕ → ℕ → List ℕ
unfolding bytes64
user_header_bytes op size = bytes16 op ++ (bytes16 size ++ (bytes32 0 ++ bytes64 0))

-- the command that the application submits
unfoldable pub user_ping : List ℕ
unfolding user_header_bytes bytes64
user_ping = user_header_bytes 0x0003 32 ++ (bytes64 0xdeadbeef ++ bytes64 0)
