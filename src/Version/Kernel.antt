-- ===== src/Version/Kernel.antt =====
-- pkg/parsers/kernel/kernel.go: the comparison of kernel versions.
use docker_analysis.Base.{if◌then◌else◌, Str}
use docker_analysis.Base.Int.{ℤ}
use docker_analysis.Version.{Sign, greater, equal, less, int_ltb}

pub record KernelVersionInfo : Type 0 where
  pub kernel : ℤ
  pub major : ℤ
  pub minor : ℤ
  pub flavor : Str

-- One of the three comparisons, and what follows it.
abbrev pub compare_part : ℤ → ℤ → Sign → Sign
compare_part a b rest = if int_ltb a b then less else if int_ltb b a then greater else rest

unfoldable pub compare_kernel_version : KernelVersionInfo → KernelVersionInfo → Sign
compare_kernel_version a b =
    compare_part a.kernel b.kernel
      (compare_part a.major b.major (compare_part a.minor b.minor equal))
