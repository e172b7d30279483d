-- ===== src/Uart/Sends.antt =====
-- lpc17_uart.c: the loops that write to the UART and wait for the transmitter.
use rffe_uc_fw.Base.{
  ℕ, zero, suc, ◌≡◌, ◌+◌, ◌⊎◌, inl, inr, refl, sym, ap, ◌∙◌, ◌++◌, List, [], ◌∷◌, pos, some,
  bit_and, ◌==◌, length, false, Bool-cases, arith,
}
use mathlib.Core.List.{append-nil, append_assoc}
use rffe_uc_fw.Uart.{
  Transmitter, thre, wait_thre, put_byte, lpc17_uart0_write_blocking, write_str,
  lpc17_uart0_write_str_blocking,
}

module _ {H : Type 0} (tx : Transmitter H) where
  -- A read within the next so many finds the transmitter free.
  abbrev pub IsFreeWithin : ℕ → H → Type 0
  IsFreeWithin zero h = ⊥
  IsFreeWithin (suc n) h = ((bit_and (tx.lsr h).0 thre == 0) ≡ false) ⊎ IsFreeWithin n (tx.lsr h).1

  -- What the manual documents: a byte that is written when a read has found the transmitter free is
  -- sent, a read sends nothing, and the transmitter is free again after a bounded number of reads.
  pub record IsTransmitter (polls : ℕ) : Type 0 where
    pub sent : H → List ℕ
    pub sent-lsr : (h : H) → sent (tx.lsr h).1 ≡ sent h
    pub sent-thr :
        (b : ℕ) (h : H)
        → (bit_and (tx.lsr h).0 thre == 0) ≡ false
        → sent (tx.thr b (tx.lsr h).1) ≡ sent h ++ (b ∷ [])
    pub free_within : (h : H) → IsFreeWithin polls h

  module _ (polls : ℕ) (laws : IsTransmitter polls) where
    open laws use {sent}

    wait_thre_lem :
        (n b : ℕ) (h : H)
        → IsFreeWithin n h
        → (h1 : H) × (wait_thre tx n h ≡ some h1) × (sent (tx.thr b h1) ≡ sent h ++ (b ∷ []))
    unfolding wait_thre
    wait_thre_lem zero b h free = absurd free
    wait_thre_lem (suc n) b h free = elim (Bool-cases (bit_and (tx.lsr h).0 thre == 0)) [
      | inr ready ↦ ((tx.lsr h).1, rw ready refl, laws.sent-thr b h ready)
      | inl busy ↦ elim free [
        | inl ready ↦ absurd (ground (arith, busy, ready))
        | inr later ↦
            let (h1, found, wrote) = wait_thre_lem n b (tx.lsr h).1 later in
            (h1, rw busy found, wrote ∙ ap (λ s. s ++ (b ∷ [])) (laws.sent-lsr h))
      ]
    ]

    put_byte_lem :
        (b : ℕ) (h : H)
        → (h1 : H) × (put_byte tx polls b h ≡ some h1) × (sent h1 ≡ sent h ++ (b ∷ []))
    unfolding put_byte
    put_byte_lem b h =
        let (h0, found, wrote) = wait_thre_lem polls b h (laws.free_within h) in
        (tx.thr b h0, rw (found, put_byte) refl, wrote)

    append_one :
        (b : ℕ) (bs s s1 s2 : List ℕ) → s1 ≡ s ++ (b ∷ []) → s2 ≡ s1 ++ bs → s2 ≡ s ++ (b ∷ bs)
    append_one b bs s s1 s2 e e' = e' ∙ ap (λ t. t ++ bs) e ∙ append_assoc s (b ∷ []) bs

    write_blocking_lem :
        (bs : List ℕ) (h : H)
        → (h' : H) × (lpc17_uart0_write_blocking tx polls bs h ≡ some (pos 0, h'))
          × (sent h' ≡ sent h ++ bs)
    unfolding lpc17_uart0_write_blocking
    write_blocking_lem [] h = (h, refl, sym (append-nil (sent h)))
    write_blocking_lem (b ∷ bs) h =
        let (h1, put, one) = put_byte_lem b h in
        let (h', run, all) = write_blocking_lem bs h1 in
        (
          h',
          rw (put, lpc17_uart0_write_blocking) run,
          append_one b bs (sent h) (sent h1) (sent h') one all,
        )

    write_str_lem :
        (len : ℕ) (cs : List ℕ) (h : H)
        → (h' : H) × (write_str tx polls len cs h ≡ some (pos (len + length cs), h'))
          × (sent h' ≡ sent h ++ cs)
    unfolding write_str
    write_str_lem len [] h = (h, ap (λ n. some (pos n, h)) (omega arith), sym (append-nil (sent h)))
    write_str_lem len (c ∷ cs) h =
        let (h1, put, one) = put_byte_lem c h in
        let (h', run, all) = write_str_lem (len + 1) cs h1 in
        (
          h',
          rw (put, write_str) (run ∙ ap (λ n. some (pos n, h')) (omega arith)),
          append_one c cs (sent h) (sent h1) (sent h') one all,
        )

    -- Both functions return, if the transmitter is free again after at most `polls` reads of the
    -- status: the write of a buffer and that of a string have then sent exactly the bytes of it, in
    -- their order. The first returns 0 whatever the number of bytes, the second their number.
    pub writes_return :
        (bs : List ℕ) (h : H)
        → ((h' : H) × (lpc17_uart0_write_blocking tx polls bs h ≡ some (pos 0, h'))
            × (sent h' ≡ sent h ++ bs))
          × ((h' : H) × (lpc17_uart0_write_str_blocking tx polls bs h ≡ some (pos (length bs), h'))
              × (sent h' ≡ sent h ++ bs))
    unfolding lpc17_uart0_write_str_blocking
    writes_return bs h =
        let (h', run, all) = write_str_lem 0 bs h in
        (write_blocking_lem bs h, (h', run ∙ ap (λ n. some (pos n, h')) (omega arith), all))
