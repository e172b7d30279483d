-- ===== src/Console/Mac.antt =====
-- rffe_console_cfg.c: the MAC address, which sscanf stores as six numbers of four bytes, one byte
-- after the other.
use rffe_uc_fw.Base.{
  ℕ, ◌≡◌, ◌≤◌, ◌/◌, ◌%◌, ◌++◌, refl, ap, List, [], ◌∷◌, pos, length, arith, length-append,
}
use rffe_uc_fw.Base.Text.{codes}
use rffe_uc_fw.Device.Os.{Os, IsDevice}
use rffe_uc_fw.Config.{config_set_mac_addr, config_get_mac_addr}
use rffe_uc_fw.Config.Transfers.{IsPresent}
use rffe_uc_fw.Config.Fields.{mac, record_size, get_field-set_field_self}
use rffe_uc_fw.Commands.Interface.{Board, GitVersion}
use rffe_uc_fw.Console.{
  Library, Stack, Line, returned, cfg_file, store_words, query_of, change_of, change_mac,
  console_set, console_set_word, console_get, console_get_word, rffe_console_cfg,
}

-- The low bytes of the numbers, and the other bytes of the last.
abbrev pub low_bytes : List ℕ → List ℕ
low_bytes [] = []
low_bytes (x ∷ xs) = x % 256 ∷ low_bytes xs

abbrev pub six : (x0 x1 x2 x3 x4 x5 : ℕ) → List ℕ
six x0 x1 x2 x3 x4 x5 = x0 ∷ x1 ∷ x2 ∷ x3 ∷ x4 ∷ x5 ∷ []

abbrev high_bytes : ℕ → List ℕ
high_bytes x = (x / 256 % 256) ∷ (x / 65536 % 256) ∷ (x / 16777216 % 256) ∷ []

store_six :
    (memory : List ℕ) (x0 x1 x2 x3 x4 x5 : ℕ)
    → length memory ≡ 9
    → store_words memory 0 (six x0 x1 x2 x3 x4 x5)
      ≡ low_bytes (six x0 x1 x2 x3 x4 x5) ++ high_bytes x5
unfolding store_words
store_six (a ∷ b ∷ c ∷ d ∷ e ∷ f ∷ g ∷ h ∷ i ∷ []) x0 x1 x2 x3 x4 x5 n = refl
store_six _ x0 x1 x2 x3 x4 x5 n = absurd (omega (arith, n))

module _ {W : Type 0} (lib : Library) (os : Os W) (board : Board W) (git : GitVersion)
    (dev : IsDevice os cfg_file) (present : IsPresent os cfg_file) where
  open dev use {contents}

  -- On a device without a fault and with room for the record, a MAC address of which sscanf reads
  -- six numbers is what the console prints afterwards, byte by byte the low bytes of the numbers,
  -- and neither call prints anything else or fails. The conversions also overwrite the three bytes
  -- behind the variable for the address with the upper bytes of the last number.
  pub mac_read_back :
      (l l' : Stack) (w : W) (word name : List ℕ) (rest : List (List ℕ)) (x0 x1 x2 x3 x4 x5 : ℕ)
      → lib.scan_mac word ≡ (pos 6, six x0 x1 x2 x3 x4 x5)
      → length l.mac ≡ 6
      → length l.behind ≡ 3
      → length l'.mac ≡ 6
      → record_size ≤ length (contents w)
      → (w1 : W) × (w2 : W) × (rffe_console_cfg lib os board git
            (name ∷ codes "set" ∷ codes "mac" ∷ word ∷ rest)
            l
            w
          ≡ returned (pos 0) [] w1)
        × (rffe_console_cfg lib os board git (name ∷ codes "get" ∷ codes "mac" ∷ []) l' w1
            ≡ returned (pos 0) (Line.mac (low_bytes (six x0 x1 x2 x3 x4 x5)) ∷ []) w2)
        × (store_words (l.mac ++ l.behind) 0 (six x0 x1 x2 x3 x4 x5)
            ≡ low_bytes (six x0 x1 x2 x3 x4 x5) ++ high_bytes x5)
  unfolding rffe_console_cfg query_of change_of console_get_word console_set_word console_get
      console_set change_mac
  mac_read_back l l' w word name rest x0 x1 x2 x3 x4 x5 read n k n' h =
      let xs = six x0 x1 x2 x3 x4 x5 in
      let stored =
        store_six (l.mac ++ l.behind) x0 x1 x2 x3 x4 x5 (rw length-append (omega arith)) in
      let w1 = (config_set_mac_addr os cfg_file (low_bytes xs) w).1 in
      let w2 = (config_get_mac_addr os cfg_file l'.mac w1).2 in
      let back =
        get_field-set_field_self os cfg_file dev present mac (pos 0) (pos 0) (low_bytes xs) l'.mac w
          h refl n' in
      (w1, w2, rw (read, stored) refl, ap (λ b. returned (pos 0) (Line.mac b ∷ []) w2) back, stored)
