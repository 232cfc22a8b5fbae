-- ===== src/Startup/Sections.antt =====
-- The sections that `Reset_Handler` of stm32f411_startup.c sets up.
use sentinel_rtos.Base.{
  ℕ, zero, suc, ◌+◌, ◌-◌, ◌*◌, ◌/◌, ◌^◌, ◌<◌, ◌≤◌, ◌≡◌, ◌⊎◌, refl, ◌∙◌, update, arith,
}
use sentinel_rtos.Startup.{Layout, words, copy_words, clear_words, reset_handler}

copy_words-outside :
    (left src dest x : ℕ) (memory : ℕ → ℕ)
    → (x < dest) ⊎ (dest + 4 * left ≤ x)
    → copy_words src dest left memory x ≡ memory x
unfolding copy_words
copy_words-outside zero src dest x memory out = refl
copy_words-outside (suc left) src dest x memory out =
    copy_words-outside left (src + 4) (dest + 4) x (update memory dest (memory src)) (omega arith)
    ∙ ground arith

copy_words-inside :
    (left src dest i : ℕ) (memory : ℕ → ℕ)
    → (src + 4 * left ≤ dest) ⊎ (dest + 4 * left ≤ src)
    → i < left
    → copy_words src dest left memory (dest + 4 * i) ≡ memory (src + 4 * i)
unfolding copy_words
copy_words-inside zero src dest i memory apart lt = absurd (omega arith)
copy_words-inside (suc left) src dest zero memory apart lt =
    ground
      (arith, copy_words-outside left (src + 4) (dest + 4) dest (update memory dest (memory src)))
copy_words-inside (suc left) src dest (suc i) memory apart lt = ground (
  arith,
  copy_words-inside left (src + 4) (dest + 4) i (update memory dest (memory src)) (omega arith)
      (omega arith),
)

clear_words-outside :
    (left dest x : ℕ) (memory : ℕ → ℕ)
    → (x < dest) ⊎ (dest + 4 * left ≤ x)
    → clear_words dest left memory x ≡ memory x
unfolding clear_words
clear_words-outside zero dest x memory out = refl
clear_words-outside (suc left) dest x memory out =
    clear_words-outside left (dest + 4) x (update memory dest 0) (omega arith) ∙ ground arith

clear_words-inside :
    (left dest i : ℕ) (memory : ℕ → ℕ) → i < left → clear_words dest left memory (dest + 4 * i) ≡ 0
unfolding clear_words
clear_words-inside zero dest i memory lt = absurd (omega arith)
clear_words-inside (suc left) dest zero memory lt =
    clear_words-outside left (dest + 4) (dest + 0) (update memory dest 0) (omega arith)
    ∙ ground arith
clear_words-inside (suc left) dest (suc i) memory lt =
    ground (arith, clear_words-inside left (dest + 4) i (update memory dest 0))

-- The addresses of a linker script: sections within the 32-bit address space, which neither overlap
-- each other nor the image in flash.
pub record IsLaidOut (at : Layout) : Type 0 where
  pub data_forwards : at.sdata ≤ at.edata
  pub data_in : at.edata < 2 ^ 32
  pub bss_forwards : at.sbss ≤ at.ebss
  pub bss_in : at.ebss < 2 ^ 32
  pub image_apart : (at.etext + (at.edata - at.sdata) ≤ at.sdata) ⊎ (at.edata ≤ at.etext)
  pub sections_apart : (at.edata ≤ at.sbss) ⊎ (at.ebss ≤ at.sdata)

-- With the linker script's sections within the address space and apart, main() finds each whole word of
-- .data with the value of its word of the image in flash, each whole word of .bss zero, and the words outside
-- both sections as they were.
pub reset_handler-sections :
    (at : Layout) (memory : ℕ → ℕ) (i j x : ℕ)
    → IsLaidOut at
    → i < (at.edata - at.sdata) / 4
    → j < (at.ebss - at.sbss) / 4
    → (x < at.sdata) ⊎ (at.edata ≤ x)
    → (x < at.sbss) ⊎ (at.ebss ≤ x)
    → let after = reset_handler at memory in
      (after (at.sdata + 4 * i) ≡ memory (at.etext + 4 * i))
      × (after (at.sbss + 4 * j) ≡ 0)
      × (after x ≡ memory x)
unfolding reset_handler
reset_handler-sections at memory i j x h i_in j_in not_data not_bss =
    let n : ℕ = words at.sdata at.edata in
    let m : ℕ = words at.sbss at.ebss in
    let n_is : n ≡ (at.edata - at.sdata) / 4 = omega (arith, h.data_forwards, h.data_in) in
    let m_is : m ≡ (at.ebss - at.sbss) / 4 = omega (arith, h.bss_forwards, h.bss_in) in
    let copied : ℕ → ℕ = copy_words at.etext at.sdata n memory in
    (
      clear_words-outside m at.sbss (at.sdata + 4 * i) copied
            (omega (arith, h.sections_apart, h.data_forwards, h.bss_forwards))
          ∙ copy_words-inside n at.etext at.sdata i memory
              (omega (arith, h.image_apart, h.data_forwards)) (omega arith),
      clear_words-inside m at.sbss j copied (omega arith),
      clear_words-outside m at.sbss x copied (omega (arith, h.bss_forwards))
          ∙ copy_words-outside n at.etext at.sdata x memory (omega (arith, h.data_forwards)),
    )
