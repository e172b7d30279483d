-- ===== src/Boot/Sim.antt =====
-- A flash on which the laws of the boot ROM hold: what the theorems are applied to.
use rffe_uc_fw.Base.{
  ℕ, ◌+◌, ◌-◌, ◌*◌, refl, Bool, ◌&&◌, List, [], ◌∷◌, get_or, ltb, leb, ◌==◌, if◌then◌else◌, arith,
}
use rffe_uc_fw.Boot.{Iap}
use rffe_uc_fw.Boot.Sectors.{sector_start}
use rffe_uc_fw.Boot.Rom.{erased_word, IsConfined, IsFlash}

pub record SimFlash : Type 0 where
  pub words : ℕ → ℕ
  pub ready : ℕ → Bool

abbrev within : (lo hi k : ℕ) → Bool
within lo hi k = leb lo (4 * k) && ltb (4 * k) hi

abbrev command : (inout : List ℕ) → (ℕ → ℕ) → SimFlash → SimFlash
command inout ram f =
    let a = get_or inout 1 0 in
    let b = get_or inout 2 0 in
    let len = get_or inout 3 0 in
    if get_or inout 0 0 == 50
    then record f { ready = λ n. leb a n && leb n b }
    else if get_or inout 0 0 == 51
    then record f { words = λ k. if within a (a + len) k then ram (b + (4 * k - a)) else f.words k }
    else if get_or inout 0 0 == 52
    then record f {
      words =
          λ k. if within (sector_start a) (sector_start (b + 1)) k then erased_word else f.words k;
    }
    else f

abbrev pub sim : Iap SimFlash
sim = record { iap_entry = λ inout ram f. (0 ∷ [], command inout ram f); word = λ f k. f.words k }

pub sim-IsConfined : IsConfined sim
sim-IsConfined = record {
  prepare_confined = λ s e f k. refl;
  erase_confined = λ s e khz f k out. ground arith;
  copy_confined = λ dest src len khz ram f k out. ground arith;
}

pub sim-IsFlash : IsFlash sim
sim-IsFlash = record {
  confined = sim-IsConfined;
  prepared = λ f n. f.ready n;
  prepare_lem = λ s e f n top lo hi. ground arith;
  erase_lem = λ s e khz f k top ready lo hi. ground arith;
  copy_lem = λ dest src len khz ram f n k d s l top ready from to blank lo hi. ground arith;
}
