-- ===== src/Trace/Event.antt =====
-- The tables at the top of tools/trace_lib.py, and the dicts that `iter_events` yields as a data type.
use sst_sat.Base.{
  ℕ, Bool, false, ◌||◌, List, [], ◌∷◌, Option, none, some, get_elem?, ◌==◌, if◌then◌else◌,
}
use sst_sat.Base.Int.{ℤ}
use sst_sat.Python.Text.{Text, codes, eq_text}
use sst_sat.Python.Number.{str_ℕ}

abbrev pub phase_names : List Text
phase_names =
    codes "IDLE"
    ∷ codes "INIT"
    ∷ codes "STEP"
    ∷ codes "PROPAGATE"
    ∷ codes "DECIDE"
    ∷ codes "ANALYZE"
    ∷ codes "MINIMIZE"
    ∷ codes "BTLEVEL"
    ∷ codes "BACKTRACK"
    ∷ codes "REDUCE"
    ∷ codes "RESTART"
    ∷ codes "WAIT_HEAP"
    ∷ codes "DONE"
    ∷ []

abbrev pub ds_names : List Text
ds_names =
    codes "heap"
    ∷ codes "indices"
    ∷ codes "variables"
    ∷ codes "watches"
    ∷ codes "watch_nodes"
    ∷ codes "clauses_cmd"
    ∷ codes "clauses"
    ∷ codes "var_activity"
    ∷ codes "unknown"
    ∷ []

abbrev or_str : Option Text → ℕ → Text
or_str (some t) n = t
or_str none n = str_ℕ n

-- `PHASE_NAMES[p] if p < len(PHASE_NAMES) else str(p)`
unfoldable pub phase_name : ℕ → Text
phase_name p = or_str (get_elem? phase_names p) p

unfoldable pub ds_name : ℕ → Text
ds_name d = or_str (get_elem? ds_names d) d

-- VIEWS
pub data View : Type 0 where
  all memory algo literal clause phase : View

-- `view not in VIEWS`
unfoldable pub view_of : Text → Option View
view_of t =
    if eq_text t (codes "all")
    then some all
    else if eq_text t (codes "memory")
    then some memory
    else if eq_text t (codes "algo")
    then some algo
    else if eq_text t (codes "literal")
    then some literal
    else if eq_text t (codes "clause")
    then some clause
    else if eq_text t (codes "phase")
    then some View.phase
    else none

abbrev view_id : View → ℕ
view_id all = 0
view_id memory = 1
view_id algo = 2
view_id literal = 3
view_id clause = 4
view_id View.phase = 5

-- `view in (…)`
abbrev pub is_in : View → List View → Bool
is_in v [] = false
is_in v (w ∷ ws) = (view_id v == view_id w) || is_in v ws

-- What every event but `finish` carries: `cycle`, `phase`, `level`.
pub record Context : Type 0 where
  pub cycle : ℕ
  pub phase : ℕ
  pub level : ℕ

-- A constructor for each `kind`, with the other keys of the dict in the order in which the code
-- writes them; `mem` stands for `mem_read` and `mem_write`, told apart by `is_write`.
pub data Event : Type 0 where
  phase : Context → Text → Event
  mem : Bool → Context → Text → ℕ → Text → ℤ → ℕ → Event
  decide : Context → ℕ → ℕ → ℕ → Event
  enqueue : Context → ℕ → ℕ → ℤ → Event
  conflict : Context → ℕ → Event
  learn : Context → ℕ → ℕ → ℕ → ℕ → Event
  backtrack : Context → ℕ → ℕ → Event
  restart : Context → ℕ → Event
  reduce : Context → ℕ → ℕ → Event
  finish : ℕ → ℕ → ℕ → Event
