-- ===== src/Startup.antt =====
-- `Reset_Handler` of stm32f411_startup.c: what memory holds when it calls main(). The addresses that the
-- linker script provides are parameters.
pub mod Sections
pub mod Vectors
use sentinel_rtos.Base.{ℕ, zero, suc, ◌+◌, ◌-◌, ◌/◌, ◌%◌, ◌^◌, update}

-- The symbols of the linker script: the end of the program in flash, where the image of the
-- initialised data stands, and the two ends of .data and .bss.
pub record Layout : Type 0 where
  pub etext : ℕ
  pub sdata : ℕ
  pub edata : ℕ
  pub sbss : ℕ
  pub ebss : ℕ

-- The words of a section, by `uint32_t` arithmetic.
abbrev pub words : ℕ → ℕ → ℕ
words start end = (end + (2 ^ 32 - start)) % 2 ^ 32 / 4

-- The loop `*p_dest_mem++ = *p_src_mem++;` with `left` rounds left.
unfoldable pub copy_words : ℕ → ℕ → ℕ → (ℕ → ℕ) → ℕ → ℕ
copy_words p_src p_dest zero memory = memory
copy_words p_src p_dest (suc left) memory =
    copy_words (p_src + 4) (p_dest + 4) left (update memory p_dest (memory p_src))

-- The loop `*p_dest_mem++ = 0;`.
unfoldable pub clear_words : ℕ → ℕ → (ℕ → ℕ) → ℕ → ℕ
clear_words p_dest zero memory = memory
clear_words p_dest (suc left) memory = clear_words (p_dest + 4) left (update memory p_dest 0)

unfoldable pub reset_handler : Layout → (ℕ → ℕ) → ℕ → ℕ
reset_handler at memory =
    clear_words at.sbss (words at.sbss at.ebss)
      (copy_words at.etext at.sdata (words at.sdata at.edata) memory)
