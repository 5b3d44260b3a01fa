-- ===== src/UtilErrors.antt =====
-- `UtilError` of utils/src/error.rs, without its texts. Of these the modelled code makes `out_of_bound`
-- alone: the index, and the bound that it meets.
use Prim.Native.String.{String}
use vm_tools.Common.{ℕ, Option, List}

-- `std::io::Error`, by the number of the system's error.
pub record IoError : Type 0 where
  pub raw_os_error : Option ℕ

-- `std::ffi::NulError`, by what its methods `nul_position` and `into_vec` give.
pub record NulError : Type 0 where
  pub nul_position : ℕ
  pub bytes : List ℕ

pub data UtilError : Type 0 where
  io : IoError → UtilError
  nul : NulError → UtilError
  missing_argument : String → UtilError
  missing_value : String → UtilError
  illegel_value : String → String → UtilError
  value_out_of_possible : String → String → UtilError
  unexpected_arguments : String → UtilError
  duplicate_argument : String → UtilError
  duplicate_value : String → UtilError
  daemon_fork : UtilError
  daemon_setsid : UtilError
  daemon_redirect_stdio : UtilError
  pid_file_exist : UtilError
  bad_syscall : IoError → UtilError
  un_expected_operation_type : UtilError
  epoll_wait : IoError → UtilError
  no_register_fd : ℕ → UtilError
  no_parked_fd : ℕ → UtilError
  bad_notifier_operation : UtilError
  chmod_failed : ℕ → UtilError
  out_of_bound : ℕ → ℕ → UtilError
  node_depth_mismatch : ℕ → ℕ → UtilError
  node_unclosed : ℕ → UtilError
  illegel_property_pos : UtilError
  illegal_string : String → UtilError
  mem_reserve_overlap : UtilError
  set_property_err : String → UtilError
