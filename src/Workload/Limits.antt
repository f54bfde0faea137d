-- ===== src/Workload/Limits.antt =====
-- crates/simferret/src/workload/mod.rs: the limits of a packaged workload.
use simferret.Prelude.{ℕ, ◌*◌, ◌^◌, ◌-◌}

abbrev pub reserved_owner : ℕ
reserved_owner = 2 ^ 32 - 1

abbrev pub max_specification_bytes : ℕ
max_specification_bytes = 2 ^ 20

abbrev pub max_path_bytes : ℕ
max_path_bytes = 1024

abbrev pub max_symlink_target_bytes : ℕ
max_symlink_target_bytes = 4096

abbrev pub max_symlink_hops : ℕ
max_symlink_hops = 40

abbrev pub max_view_entries : ℕ
max_view_entries = 2 ^ 15

abbrev pub max_expanded_layer_bytes : ℕ
max_expanded_layer_bytes = 256 * 2 ^ 20

abbrev pub max_arguments : ℕ
max_arguments = 256

abbrev pub max_argument_bytes : ℕ
max_argument_bytes = 4096

abbrev pub max_environment_entries : ℕ
max_environment_entries = 256

abbrev pub max_environment_entry_bytes : ℕ
max_environment_entry_bytes = 4096

abbrev pub max_environment_bytes : ℕ
max_environment_bytes = 64 * 1024

-- `WORKLOAD_SPEC_VERSION`
abbrev pub workload_spec_version : ℕ
workload_spec_version = 1

-- `MAX_FILE_BYTES`
abbrev pub max_file_bytes : ℕ
max_file_bytes = 16 * 2 ^ 20
