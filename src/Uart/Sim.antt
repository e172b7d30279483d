-- ===== src/Uart/Sim.antt =====
-- A transmitter that is busy for one read after each byte, and registers, for the examples.
use rffe_uc_fw.Base.{ℕ, ◌++◌, inl, inr, refl, Bool, true, false, List, [], ◌∷◌, if◌then◌else◌}
use rffe_uc_fw.Uart.{Transmitter, UartRegs}
use rffe_uc_fw.Uart.Sends.{IsTransmitter}

pub record Line : Type 0 where
  pub free : Bool
  pub out : List ℕ

abbrev pub slow : Transmitter Line
slow = record {
  lsr = λ h. (if h.free then 0x60 else 0, record h { free = true });
  thr = λ b h. record { free = false; out = h.out ++ (b ∷ []) };
}

abbrev pub slow-IsTransmitter : IsTransmitter slow 2
slow-IsTransmitter = record {
  sent = λ h. h.out;
  sent-lsr = λ h. refl;
  sent-thr = λ b h ready. refl;
  free_within = λ h. inr (inl refl);
}

abbrev pub line : Line
line = record { free = true; out = [] }

abbrev pub regs : UartRegs
regs = record {
  clock = record { pclksel0 = 0; pclksel1 = 0 };
  pconp = 0;
  fdr = 0x10;
  lcr = 0;
  dlm = 0;
  dll = 1;
  ter = 0;
}
