-- ===== src/Uart/Tests.antt =====
-- The theorems about lpc17_uart.c with a transmitter that is busy for one read after each byte, and
-- with the rates of the bootloader.
use rffe_uc_fw.Base.{◌≡◌, refl, pos, some, arith}
use rffe_uc_fw.Base.Text.{codes}
use rffe_uc_fw.Uart.{lpc17_uart0_write_blocking, lpc17_uart0_write_str_blocking, lpc17_uart0_init}
use rffe_uc_fw.Uart.Sim.{Line, slow, slow-IsTransmitter, line, regs}
use rffe_uc_fw.Uart.Sends.{writes_return}
use rffe_uc_fw.Uart.Baud.{Outcome, init_lem}

writes_return_example :
    ((h' : Line) × (lpc17_uart0_write_blocking slow 2 (codes "BOOT") line ≡ some (pos 0, h'))
      × (h'.out ≡ codes "BOOT"))
    × ((h' : Line) × (lpc17_uart0_write_str_blocking slow 2 (codes "BOOT") line ≡ some (pos 4, h'))
        × (h'.out ≡ codes "BOOT"))
writes_return_example = writes_return slow 2 slow-IsTransmitter (codes "BOOT") line

-- 39 for 115200 baud at 72 MHz.
boot_divisor : (lpc17_uart0_init 115200 72000000 regs).1.dll ≡ 39
unfolding lpc17_uart0_init
boot_divisor = refl

init_lem_example : Outcome 115200 72000000 regs (lpc17_uart0_init 115200 72000000 regs)
init_lem_example = init_lem 115200 72000000 regs (omega arith) (omega arith)
