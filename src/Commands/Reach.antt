-- ===== src/Commands/Reach.antt =====
-- scpi_rffe_cmd.c: the places of the nine numbers in the record, and writes that do not reach them.
use rffe_uc_fw.Base.{
  ℕ, ◌+◌, ◌≤◌, ◌≡◌, ◌⊎◌, inl, inr, ap, ◌∙◌, List, length, slice, splice, length-splice,
  slice-splice_before, slice-splice_after, arith,
}
use rffe_uc_fw.Config.Fields.{offset_of}
use rffe_uc_fw.Commands.Settings.{Setting, place}
use rffe_uc_fw.Commands.Addresses.{Address, field_of}

-- The record is as long as it was, and the four bytes of the setting are as they were.
pub record KeepsSetting (q : Setting) (xs ys : List ℕ) : Type 0 where
  pub same_length : length ys ≡ length xs
  pub same_slice : slice (place q) 4 ys ≡ slice (place q) 4 xs

pub same-KeepsSetting : (q : Setting) {xs ys : List ℕ} → ys ≡ xs → KeepsSetting q xs ys
same-KeepsSetting q e = record { same_length = ap length e; same_slice = ap (slice (place q) 4) e }

pub both-KeepsSetting :
    {q : Setting} {xs ys zs : List ℕ}
    → KeepsSetting q xs ys
    → KeepsSetting q ys zs
    → KeepsSetting q xs zs
both-KeepsSetting k k' = record {
  same_length = k'.same_length ∙ k.same_length;
  same_slice = k'.same_slice ∙ k.same_slice;
}

-- A write that does not reach the setting.
pub splice-KeepsSetting :
    (q : Setting) (off : ℕ) (v xs : List ℕ)
    → (off + length v ≤ place q) ⊎ (place q + 4 ≤ off)
    → KeepsSetting q xs (splice off v xs)
splice-KeepsSetting q off v xs (inl h) = record {
  same_length = length-splice off v xs;
  same_slice = slice-splice_after off (place q) 4 v xs h;
}
splice-KeepsSetting q off v xs (inr h) = record {
  same_length = length-splice off v xs;
  same_slice = slice-splice_before off (place q) 4 v xs h;
}

-- The two flags are the bytes at 0x50 and 0x51, the three addresses lie before 0x40.
pub byte_apart :
    (q : Setting) (off : ℕ) → 80 ≤ off → off ≤ 95 → (off + 1 ≤ place q) ⊎ (place q + 4 ≤ off)
byte_apart q off low high = ground arith

pub address_apart : (a : Address) (q : Setting) → offset_of (field_of a) + 4 ≤ place q
address_apart a q = ground arith
