-- ===== src/Drivers/Uart.antt =====
-- Drivers/Src/uart.c: characters and decimal numbers on USART2. The transmitter's ready flag, on which
-- `uart_write` spins, is hardware: the write comes when it is set.
pub mod Decimal
use sentinel_rtos.Base.{
  ℕ, zero, suc, ◌+◌, ◌/◌, ◌%◌, ◌^◌, Bool, Option, none, some, List, [], ◌∷◌, ◌++◌, ◌==◌,
  if◌then◌else◌, update,
}

-- `CR1_UE`, and what went to the data register, in order.
pub record Usart : Type 0 where
  pub enabled : Bool
  pub written : List ℕ

-- `ch & 0xFF`.
unfoldable pub uart_write : ℕ → Usart → Usart
uart_write ch u = record u { written = u.written ++ (ch % 256 ∷ []) }

-- None is the return value -1.
unfoldable pub io_putchar : ℕ → Usart → Option ℕ × Usart
io_putchar ch u = if u.enabled then (some ch, uart_write ch u) else (none, u)

unfoldable pub uart_print : List ℕ → Usart → Usart
uart_print [] u = u
uart_print (ch ∷ str) u = uart_print str (io_putchar ch u).1

-- The result is a `uint16_t`, the sum and the division are on `uint32_t`.
unfoldable pub compute_uart_baud : ℕ → ℕ → ℕ
compute_uart_baud periph_clk baud_rate = (periph_clk + baud_rate / 2) % 2 ^ 32 / baud_rate % 2 ^ 16

-- The value that it writes to BRR.
unfoldable pub uart_set_baud_rate : ℕ → ℕ → ℕ
uart_set_baud_rate periph_clk baud_rate = compute_uart_baud periph_clk baud_rate

-- The loop that fills `buffer` with the digits, last digit first: the number of digits and the buffer.
unfoldable pub fill : ℕ → ℕ → (ℕ → ℕ) → ℕ → ℕ × (ℕ → ℕ)
fill zero num buffer i = (i, buffer)
fill (suc fuel) num buffer i =
    let more = fill fuel (num / 10) (update buffer i (48 + num % 10)) (i + 1) in
    if num == 0 then (i, buffer) else more

-- The loop that puts the buffer out backwards: its characters in the order of the calls.
unfoldable pub drain : (ℕ → ℕ) → ℕ → List ℕ
drain buffer zero = []
drain buffer (suc i) = buffer i ∷ drain buffer i

-- The characters that `uart_print_number` puts out. The buffer has ten bytes: ten rounds.
unfoldable pub characters : ℕ → List ℕ
characters num =
    let (i, buffer) = fill 10 num (λ j. 0) 0 in if num == 0 then 48 ∷ [] else drain buffer i

unfoldable pub uart_print_number : ℕ → Usart → Usart
uart_print_number num u = uart_print (characters num) u
