-- ===== src/System/Bank.antt =====
-- What the SCPI commands promise of the nine numbers of the configuration: a bank of registers, each
-- of which a set command with a number stores, and which nothing else changes. Nothing of this knows
-- of the record in the FERAM, of the temperature control or of the other commands.
use rffe_uc_fw.Base.{ℕ, ◌≡◌, ◌≢◌, refl, List, [], ◌∷◌, if◌then◌else◌}
use rffe_uc_fw.Device.Os.{Os}
use rffe_uc_fw.Config.Pid.{Channel}
use rffe_uc_fw.Commands.Interface.{Scpi, Board}
use rffe_uc_fw.Commands.All.{number, set}
use rffe_uc_fw.System.{Event, client, server}
use rffe_uc_fw.Commands.Settings.{Constant, Setting, encode}

pub Channel-discrete : Discrete Channel
Channel-discrete = hlevel

pub Constant-discrete : Discrete Constant
Constant-discrete = hlevel

pub Setting-discrete : Discrete Setting
Setting-discrete = hlevel

-- The numbers as they are stored.
abbrev pub Bank : Type 0
Bank = Setting → List ℕ

abbrev choose {ℓ κ} : {P : Type ℓ} {A : Type κ} → Dec P → A → A → A
choose (yes e) v w = v
choose (no ne) v w = w

choose_yes {ℓ κ} : {P : Type ℓ} {A : Type κ} (d : Dec P) (v w : A) → P → choose d v w ≡ v
choose_yes (yes e) v w p = refl
choose_yes (no ne) v w p = absurd (ne p)

choose_no {ℓ κ} : {P : Type ℓ} {A : Type κ} (d : Dec P) (v w : A) → (P → ⊥) → choose d v w ≡ w
choose_no (yes e) v w np = absurd (np e)
choose_no (no ne) v w np = refl

unfoldable pub put_register : Setting → List ℕ → Bank → Bank
put_register p v m q = choose (Setting-discrete p q) v (m q)

pub put_register_self : (p : Setting) (v : List ℕ) (m : Bank) → put_register p v m p ≡ v
unfolding put_register
put_register_self p v m = choose_yes (Setting-discrete p p) v (m p) refl

pub put_register_other :
    (p q : Setting) (v : List ℕ) (m : Bank) → p ≢ q → put_register p v m q ≡ m q
unfolding put_register
put_register_other p q v m ne = choose_no (Setting-discrete p q) v (m q) ne

module _ {C N W : Type 0} (scpi : Scpi C N) (os : Os W) (board : Board W) where
  unfoldable pub bank_step : Event C → Bank → Bank
  bank_step (client context (set (number p)) l) m =
      let (given, v, _) = scpi.param_number context in
      if given then put_register p (encode scpi os board p v) m else m
  bank_step (client context c l) m = m
  bank_step (server st) m = m

  unfoldable pub bank_run : List (Event C) → Bank → Bank
  unfolding bank_step
  bank_run [] m = m
  bank_run (e ∷ es) m = bank_run es (bank_step e m)
