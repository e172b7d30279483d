-- ===== src/Boot/Resume.antt =====
-- Boots that lose their power between flash commands, and the boot after them.
use mathlib.Core.Path.{subst}
use rffe_uc_fw.Base.{
  ℕ, zero, suc, ◌+◌, ◌*◌, ◌%◌, ◌<◌, ◌≤◌, ◌≡◌, ◌⊎◌, inl, inr, refl, sym, ap, ◌∙◌, List, [], ◌∷◌,
  arith, ◌>>◌,
}
use rffe_uc_fw.Boot.{Iap, lpc17_iap_erase_sectors, install_app, update_app, main, magic, fw_type}
use rffe_uc_fw.Boot.Rom.{erased_word, IsFlash}
use rffe_uc_fw.Boot.Update.{install_app-confined, IsAppUpdated, update_app-IsAppUpdated}
use rffe_uc_fw.Boot.Power.{Supply, supply, cut, cut-IsConfined, Agrees, install_app-Follows}

module _ {F : Type 0} (iap : Iap F) where
  open iap use {word}

  -- `g` has what `f` has outside of the application.
  abbrev pub IsPending : F → F → Type 0
  IsPending f g = (k : ℕ) → (4 * k < 0x10000) ⊎ (0x48000 ≤ 4 * k) → word g k ≡ word f k

  -- The order to update the application.
  pub record IsOrdered (f : F) : Type 0 where
    pub magic_set : magic iap f ≡ 0xAAAAAAAA
    pub for_app : fw_type iap f ≡ 1

  -- The flash after a boot whose power lasts for `n` commands.
  pub interrupted : (stack n : ℕ) → F → F
  interrupted stack n f = (main (cut iap) stack (supply f n)).1.flash

  -- Boots that are cut short, in turn, with the commands that each had power for.
  pub interrupted_boots : (stack : ℕ) → List ℕ → F → F
  interrupted_boots stack [] f = f
  interrupted_boots stack (n ∷ ns) f = interrupted_boots stack ns (interrupted stack n f)

  -- A boot with an order updates, and one that finds erased flash there changes nothing.
  main_ordered :
      (stack : ℕ) (f : F) → IsOrdered f → (main iap stack f).1 ≡ (update_app iap stack 72000 f).1
  unfolding main
  main_ordered stack f o = rw (o.magic_set, o.for_app)

  main_done : (stack : ℕ) (f : F) → magic iap f ≡ erased_word → (main iap stack f).1 ≡ f
  unfolding main
  main_done stack f e = rw e

module _ {F : Type 0} (iap : Iap F) (rom : IsFlash iap) (stack : ℕ) (aligned : stack % 4 ≡ 0) where
  open iap use {word}

  -- The last command of the update, on `g`, when `n` commands have power.
  last_command :
      (g f4 : F) (n : ℕ)
      → Agrees (supply g n) f4
      → ((lpc17_iap_erase_sectors (cut iap) 29 29 72000 (supply g n)).1.flash ≡ g)
        ⊎ ((lpc17_iap_erase_sectors (cut iap) 29 29 72000 (supply g n)).1.flash
            ≡ (lpc17_iap_erase_sectors iap 29 29 72000 f4).1)
  unfolding lpc17_iap_erase_sectors
  last_command g f4 zero a = inl refl
  last_command g f4 (suc n) (inl e) = absurd (omega arith)
  last_command g f4 (suc n) (inr e) =
      inr (ap (λ f. (lpc17_iap_erase_sectors iap 29 29 72000 f).1) e)

  cut_update :
      (f : F) (n : ℕ)
      → IsPending iap f (update_app (cut iap) stack 72000 (supply f n)).1.flash
        ⊎ ((update_app (cut iap) stack 72000 (supply f n)).1.flash
            ≡ (update_app iap stack 72000 f).1)
  unfolding update_app
  cut_update f n =
      elim (last_command s4.flash (install_app iap stack 72000 f) s4.left
        ((install_app-Follows iap stack 72000).alive f n)) [
          | inl same ↦ inl (λ k out.
              ap (λ g. word g k) same
              ∙ install_app-confined (cut iap) (cut-IsConfined iap rom.confined) stack 72000
                  (supply f n) k out)
          | inr done ↦ inr done
        ]
    where
      s4 : Supply F
      s4 = install_app (cut iap) stack 72000 (supply f n)

  IsPending-trans : {f g h : F} → IsPending iap f g → IsPending iap g h → IsPending iap f h
  IsPending-trans p q k out = q k out ∙ p k out

  IsAppUpdated-pending :
      {f g h : F} → IsPending iap f g → IsAppUpdated iap g h → IsAppUpdated iap f h
  IsAppUpdated-pending p u = record {
    app = λ k lo hi. u.app k lo hi ∙ p (k + 0xE000) (omega arith);
    bootloader = λ k lo. u.bootloader k lo ∙ p k (omega arith);
    update = λ k lo hi. u.update k lo hi ∙ p k (omega arith);
    order = u.order;
  }

  IsOrdered-pending : {f g : F} → IsPending iap f g → IsOrdered iap f → IsOrdered iap g
  IsOrdered-pending p o = record {
    magic_set = p 0x1FFFF (omega arith) ∙ o.magic_set;
    for_app = ap (λ w. w >> 24) (p 0x1FFFE (omega arith)) ∙ o.for_app;
  }

  update_app-updates : (f : F) → IsAppUpdated iap f (update_app iap stack 72000 f).1
  update_app-updates f = (update_app-IsAppUpdated iap rom stack aligned 72000 f).0

  -- Where a series of boots stands: nothing is lost yet, or all is done.
  abbrev Progress : F → F → Type 0
  Progress f g = IsPending iap f g ⊎ IsAppUpdated iap f g

  interrupted-Progress :
      (n : ℕ) {f g : F} → IsOrdered iap f → Progress f g → Progress f (interrupted iap stack n g)
  unfolding interrupted
  interrupted-Progress n {f} {g} o (inl p) =
      subst (λ (s : Supply F). Progress f s.flash)
        (sym (main_ordered (cut iap) stack (supply g n) (cut_ordered (IsOrdered-pending p o))))
        (elim (cut_update g n) [
          | inl q ↦ inl (IsPending-trans p q)
          | inr e ↦
              inr
                (subst (IsAppUpdated iap f) (sym e) (IsAppUpdated-pending p (update_app-updates g)))
        ])
    where
      cut_ordered : IsOrdered iap g → IsOrdered (cut iap) (supply g n)
      cut_ordered o' = record { magic_set = o'.magic_set; for_app = o'.for_app }
  interrupted-Progress n {f} {g} o (inr u) =
      subst (λ (s : Supply F). Progress f s.flash)
        (sym (main_done (cut iap) stack (supply g n) (u.order 0x1FFFF (omega arith) (omega arith))))
        (inr u)

  boots-Progress :
      (ns : List ℕ) {f g : F}
      → IsOrdered iap f
      → Progress f g
      → Progress f (interrupted_boots iap stack ns g)
  unfolding interrupted_boots
  boots-Progress [] o p = p
  boots-Progress (n ∷ ns) o p = boots-Progress ns o (interrupted-Progress n o p)

  main-completes :
      {f g : F} → IsOrdered iap f → Progress f g → IsAppUpdated iap f (main iap stack g).1
  main-completes {f} {g} o (inl p) =
      rw (main_ordered iap stack g (IsOrdered-pending p o))
        (IsAppUpdated-pending p (update_app-updates g))
  main-completes {f} {g} o (inr u) =
      rw (main_done iap stack g (u.order 0x1FFFF (omega arith) (omega arith))) u

  -- With an order to update the application in the flash, any number of boots that lose their
  -- power between two flash commands, followed by one that does not, leave the flash as one whole
  -- update does.
  pub resume :
      (ns : List ℕ) (f : F)
      → IsOrdered iap f
      → IsAppUpdated iap f (main iap stack (interrupted_boots iap stack ns f)).1
  resume ns f o = main-completes o (boots-Progress ns o (inl (λ k out. refl)))

  -- After an update has run to its end, a further boot changes nothing.
  main_idle :
      (f : F) → IsOrdered iap f → (main iap stack (main iap stack f).1).1 ≡ (main iap stack f).1
  unfolding interrupted_boots
  main_idle f o =
      main_done iap stack (main iap stack f).1
        ((resume [] f o).order 0x1FFFF (omega arith) (omega arith))
