-- ===== src/Activate/Kernel.antt =====
-- activate.c: what the files /proc/irq/N/smp_affinity answer. They are the kernel's, and arguments
-- of the operations. The path of such a file is shorter than PATH_MAX, so its buffer is left out.
use irqbalance.Prelude.{ℤ, ℕ, Bool, true, Option, none, some}
use irqbalance.Types.Cpumask.{Cpumask}

pub data Errno : Type 0 where
  eagain ebusy einval erange enomem enospc eio eperm : Errno
  other_errno : ℕ → Errno

-- One opening of the file for writing: the error of each call, if it fails.
pub record Writing : Type 0 where
  pub fopen : Option Errno
  pub fprintf : Option Errno
  pub fflush : Option Errno
  pub fclose : Option Errno

-- `read_mask irq` is the mask the file holds, if it can be read. `write_mask irq t m` answers the
-- `t`-th writing of this run to the file of `irq`, of the mask `m`.
pub record Kernel (M : Type 0) : Type 0 where
  pub read_mask : ℤ → Option M
  pub write_mask : ℤ → ℕ → M → Writing

-- The error that `errsave` holds: a failing call overwrites what stood there.
abbrev pub last_error : Option Errno → Option Errno → Option Errno
last_error before none = before
last_error before (some e) = some e

-- A print that failed is not flushed.
abbrev pub print_error : Writing → Option Errno
print_error w = last_error w.fflush w.fprintf

abbrev pub mapping_error : Writing → Option Errno
mapping_error w = last_error (last_error (print_error w) w.fclose) w.fopen

-- EIO is reported as EPERM.
abbrev pub reported : Errno → Errno
reported Errno.eio = Errno.eperm
reported e = e

module _ {M : Type 0} ⦃mask : Cpumask M⦄ where
  abbrev pub check_affinity : Option M → M → Bool
  check_affinity none applied_mask = true
  check_affinity (some current_mask) applied_mask = mask.cpus_equal applied_mask current_mask
