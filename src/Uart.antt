-- ===== src/Uart.antt =====
-- bootloader/src/lpc17_uart.c: the set-up of UART0, and the two functions that write to it and wait.
-- The registers that the set-up writes are a record. The transmitter is hardware: reads of its
-- status and writes of a byte are a parameter.
pub mod Baud
pub mod Sends
pub mod Sim
mod Tests
use rffe_uc_fw.Base.{
  ℕ, zero, suc, ◌+◌, ◌-◌, ◌*◌, ◌/◌, ◌%◌, ◌^◌, List, [], ◌∷◌, ℤ, pos, negsuc, Option, none, some,
  bit_and, bit_or, u32, u8, ltb, ◌<<◌, ◌>>◌, ◌==◌, ◌||◌, if◌then◌else◌,
}
use rffe_uc_fw.Clock.{ClockSel, pclk_uart0, pclk_div1, lpc17_set_pclk}

-- Reads of LSR and writes of THR.
pub record Transmitter (H : Type 0) : Type 0 where
  pub lsr : H → ℕ × H
  pub thr : ℕ → H → H

-- UART0_LSR_THRE_Msk: the transmitter takes a byte.
abbrev pub thre : ℕ
thre = 0x20

module _ {H : Type 0} (tx : Transmitter H) where
  -- The loop that reads LSR until the bit is set, for at most so many reads.
  pub wait_thre : (polls : ℕ) → H → Option H
  wait_thre zero h = none
  wait_thre (suc n) h =
      let (status, h1) = tx.lsr h in
      let rest = wait_thre n h1 in if bit_and status thre == 0 then rest else some h1

  -- A byte that is sent, and what is done then.
  pub put_byte : (polls : ℕ) → ℕ → H → Option H
  unfolding wait_thre
  put_byte polls b h = elim (wait_thre polls h) [ none ↦ none | some h1 ↦ some (tx.thr b h1) ]

  -- The bytes of the buffer, as many as `len` says. The result is `len` after the loop.
  pub lpc17_uart0_write_blocking : (polls : ℕ) → List ℕ → H → Option (ℤ × H)
  unfolding put_byte
  lpc17_uart0_write_blocking polls [] h = some (pos 0, h)
  lpc17_uart0_write_blocking polls (b ∷ bs) h = elim (put_byte polls b h) [
    | none ↦ none
    | some h1 ↦ lpc17_uart0_write_blocking polls bs h1
  ]

  -- The loop over the characters before the terminating zero; `len` counts those that were sent.
  pub write_str : (polls len : ℕ) → List ℕ → H → Option (ℤ × H)
  unfolding put_byte
  write_str polls len [] h = some (pos len, h)
  write_str polls len (c ∷ cs) h = elim (put_byte polls c h) [
    | none ↦ none
    | some h1 ↦ write_str polls (len + 1) cs h1
  ]

  pub lpc17_uart0_write_str_blocking : (polls : ℕ) → List ℕ → H → Option (ℤ × H)
  unfolding write_str
  lpc17_uart0_write_str_blocking polls text h = write_str polls 0 text h

-- The registers of the set-up.
pub record UartRegs : Type 0 where
  pub clock : ClockSel
  pub pconp : ℕ
  pub fdr : ℕ
  pub lcr : ℕ
  pub dlm : ℕ
  pub dll : ℕ
  pub ter : ℕ

-- The divisor; `16 * baud` is a uint32_t and must not be 0.
abbrev pub uart_div : (baud cpu_clk : ℕ) → ℕ
uart_div baud cpu_clk = cpu_clk / u32 (16 * baud)

-- Writes to DLM and DLL reach the divisor while the bit DLAB of LCR is set; otherwise the two
-- addresses are those of IER and THR.
abbrev pub dlab : ℕ
dlab = 0x80

pub store_dlm : ℕ → UartRegs → UartRegs
store_dlm v r = if bit_and r.lcr dlab == 0 then r else record r { dlm = v }

pub store_dll : ℕ → UartRegs → UartRegs
store_dll v r = if bit_and r.lcr dlab == 0 then r else record r { dll = v }

pub lpc17_uart0_init : (baud cpu_clk : ℕ) → UartRegs → ℤ × UartRegs
unfolding store_dlm store_dll
lpc17_uart0_init baud cpu_clk r =
    let r1 : UartRegs = record r {
      clock = lpc17_set_pclk pclk_uart0 pclk_div1 r.clock;
      pconp = bit_or r.pconp 0x8;
      fdr = bit_or (0 << 0) (1 << 4);
    } in
    let div = uart_div baud cpu_clk in
    if ltb div 1 || ltb 0xFFFF div
    then (negsuc 0, r1)
    else (let r2 : UartRegs = record r1 { lcr = bit_or r1.lcr dlab } in
        let r3 = store_dll (bit_and div 0xFF) (store_dlm (bit_and (div >> 8) 0xFF) r2) in
        let r4 : UartRegs = record r3 { lcr = bit_and r3.lcr (2 ^ 32 - 1 - dlab) } in
        (pos 0, record r4 { lcr = 3 << 0; ter = 0x80 }))
