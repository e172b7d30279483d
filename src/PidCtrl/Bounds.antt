-- ===== src/PidCtrl/Bounds.antt =====
-- pid.c: the limits of the output and of the accumulated error.
use rffe_uc_fw.Base.{ℕ, ◌≡◌, refl, inl, inr, false, List, [], ◌∷◌, Bool-cases}
use rffe_uc_fw.PidCtrl.{Floats, PidCtrl, limited, pid_compute}

module _ (fl : Floats) where
  -- Neither above the maximum nor below the minimum. A NaN is neither.
  abbrev pub IsWithin : (out_min out_max : List ℕ) → List ℕ → Type 0
  IsWithin out_min out_max x = (fl.is_below out_max x ≡ false) × (fl.is_below x out_min ≡ false)

  -- The limits are floats in order: no one is below itself, and the maximum is not below the
  -- minimum.
  pub record AreLimits (out_min out_max : List ℕ) : Type 0 where
    pub max_self : fl.is_below out_max out_max ≡ false
    pub min_self : fl.is_below out_min out_min ≡ false
    pub in_order : fl.is_below out_max out_min ≡ false

  limited-IsWithin :
      (out_min out_max x : List ℕ)
      → AreLimits out_min out_max
      → IsWithin out_min out_max (limited fl out_min out_max x)
  unfolding limited
  limited-IsWithin out_min out_max x lim = elim (Bool-cases (fl.is_below out_max x)) [
    | inl high ↦ rw high (lim.max_self, lim.in_order)
    | inr fine ↦ elim (Bool-cases (fl.is_below x out_min)) [
      | inl low ↦ rw (fine, low) (lim.in_order, lim.min_self)
      | inr good ↦ rw (fine, good) (fine, good)
    ]
  ]

  -- The outputs for a sequence of inputs, and the controller after them.
  abbrev pid_run : PidCtrl → List (List ℕ) → List (List ℕ) × PidCtrl
  pid_run pid [] = ([], pid)
  pid_run pid (x ∷ xs) =
      let (out, pid') = pid_compute fl pid x in
      let (outs, last) = pid_run pid' xs in (out ∷ outs, last)

  abbrev AllWithin : (out_min out_max : List ℕ) → List (List ℕ) → Type 0
  AllWithin out_min out_max [] = Unit {0}
  AllWithin out_min out_max (x ∷ xs) = IsWithin out_min out_max x × AllWithin out_min out_max xs

  -- The limits of a controller.
  abbrev pub HasLimits : (out_min out_max : List ℕ) → PidCtrl → Type 0
  HasLimits out_min out_max pid = (pid.out_min ≡ out_min) × (pid.out_max ≡ out_max)

  -- One step keeps the limits, and both its output and the accumulated error are within them.
  pub pid_compute-IsWithin :
      (out_min out_max : List ℕ) (pid : PidCtrl) (input : List ℕ)
      → AreLimits out_min out_max
      → HasLimits out_min out_max pid
      → let (out, pid') = pid_compute fl pid input in
        HasLimits out_min out_max pid'
        × IsWithin out_min out_max out
        × IsWithin out_min out_max pid'.inte_acc
  unfolding pid_compute
  pid_compute-IsWithin out_min out_max pid input lim h =
      rw (h.0, h.1)
        (
          (refl, refl),
          limited-IsWithin out_min out_max _ lim,
          limited-IsWithin out_min out_max _ lim,
        )

  -- Every output of a controller is within its limits, for any sequence of inputs and whatever the
  -- arithmetic of floats does besides, if the limits are floats in order.
  pid_run-AllWithin :
      (out_min out_max : List ℕ) (pid : PidCtrl) (xs : List (List ℕ))
      → AreLimits out_min out_max
      → HasLimits out_min out_max pid
      → AllWithin out_min out_max (pid_run pid xs).0
  pid_run-AllWithin out_min out_max pid [] lim h = tt
  pid_run-AllWithin out_min out_max pid (x ∷ xs) lim h =
      let (h', within, _) = pid_compute-IsWithin out_min out_max pid x lim h in
      (within, pid_run-AllWithin out_min out_max (pid_compute fl pid x).1 xs lim h')
