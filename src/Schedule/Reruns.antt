-- ===== src/Schedule/Reruns.antt =====
-- A re-run is the second attempt of its cell.
use percentes.Base.{ℕ, suc, ◌≡◌, false, some, List, bytes_eq, get_elem?, ok}
use percentes.Base.Int.{ℤ, pos, leb_ℤ}
use percentes.Schedule.Types.{Library, Input, Cell, Schedule, Run, max_reruns}
use percentes.Schedule.Window.{Pools, pool_of, window}
use percentes.Schedule.Frame.{seed_at}
use percentes.Schedule.Runs.{find_offset, run_of}
use percentes.Schedule.Dates.{IsDrawn, attempt_on}

-- The second run of a cell with a label: on the date after the first attempt's in its pool.
pub record IsSecond (lib : Library) (seed : List ℕ) (pools : Pools) (route : List ℕ) (off : ℕ)
    (label : List ℕ) (r : Run) : Type 0 where
  pub cell : Cell
  pub has_label : cell.label ≡ label
  pub drawn : IsDrawn lib seed pools cell
  pub next_date : ℕ
  pub in_pool : get_elem? (pool_of pools cell.day_type) (suc drawn.index) ≡ some next_date
  pub run_is : r ≡ run_of route off cell (attempt_on lib seed cell 2 next_date)

-- A re-run that a schedule's route is granted.
pub record Reran (lib : Library) (i : Input) (s : Schedule) (route label : List ℕ) (taken : ℤ)
    (r : Run) : Type 0 where
  pub in_cap : leb_ℤ (pos max_reruns) taken ≡ false
  pub pools : Pools
  pub in_window : window lib i ≡ ok pools
  pub off : ℕ
  pub has_offset : find_offset s.offsets route ≡ ok off
  pub second : IsSecond lib (seed_at i.master_seed s.counter) pools route off label r
