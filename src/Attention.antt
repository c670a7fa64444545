-- ===== src/Attention.antt =====
-- pagedllm/attention/__init__.py: `select_backend`.
-- Whether Triton or flash-attn is installed and CUDA is there is a parameter; a backend stands for
-- its function. A name that is none of the four is `other`.
pub mod Reference
pub mod Segments
use paged_llm.Base.{Bool, if◌then◌else◌, Result, ok, raise, value_error}

pub data Name : Type 0 where
  auto triton flash torch other : Name

pub data Kernel : Type 0 where
  triton_kernel flash_kernel torch_kernel : Kernel

unfoldable pub resolve_auto : Bool → Bool → Name → Name
resolve_auto has_triton has_flash Name.auto =
    if has_triton then Name.triton else if has_flash then Name.flash else Name.torch
resolve_auto has_triton has_flash Name.triton = Name.triton
resolve_auto has_triton has_flash Name.flash = Name.flash
resolve_auto has_triton has_flash Name.torch = Name.torch
resolve_auto has_triton has_flash Name.other = Name.other

abbrev pub kernel_of : Name → Result Kernel
kernel_of Name.triton = ok Kernel.triton_kernel
kernel_of Name.flash = ok Kernel.flash_kernel
kernel_of Name.torch = ok Kernel.torch_kernel
kernel_of Name.auto = raise value_error
kernel_of Name.other = raise value_error

unfoldable pub select_backend : Bool → Bool → Name → Result Kernel
unfolding resolve_auto
select_backend has_triton has_flash name = kernel_of (resolve_auto has_triton has_flash name)
