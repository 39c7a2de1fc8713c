-- ===== src/Tools/Coprocessor.antt =====
-- tools/compute_coprocessor.py: the cycles that a coprocessor is estimated to take in each phase, and
-- the rows that are printed.
use sst_sat.Base.{ℕ, Bool, true, false, ◌||◌, Option, some, List, [], ◌∷◌, ◌++◌, map}
use sst_sat.Base.Int.{ℤ, pos}
use sst_sat.Base.Dict.{lookup}
use sst_sat.Python.Text.{join, Text, Text_eq, codes, starts_with}
use sst_sat.Log.Value.{Floats, Value, whole, real, Stats, ◌>>=◌}
use sst_sat.Log.Number.{
  Arithmetic, figure, add, multiply, quotient, above_zero, sum_values, fixed_text, number_text,
  zero_float,
}

-- A figure for each phase.
pub record Phases (A : Type 0) : Type 0 where
  pub propagation : A
  pub learning : A
  pub minimize : A
  pub backtrack : A
  pub deletion : A
  pub decision : A

abbrev pub in_order : {A : Type 0} → Phases A → List A
in_order p = p.propagation ∷ p.learning ∷ p.minimize ∷ p.backtrack ∷ p.deletion ∷ p.decision ∷ []

module _ (fl : Floats) (ar : Arithmetic fl.Float) where
  -- result.get(key, 0)
  abbrev count_at : Text → Stats fl.Float → Value fl.Float
  unfolding lookup
  count_at key r = figure fl ar key (whole (pos 0)) r

  sum_of_two : Text → Text → Stats fl.Float → Option (Value fl.Float)
  unfolding add count_at
  sum_of_two j k r = add fl ar (count_at j r) (count_at k r)

  -- The constants 1.5, 2.0 and 3.0
  abbrev halves : ℕ → Value fl.Float
  halves n = real (ar.shared (fl.of_ℕ n) 2)

  -- v * factor * sf_scale
  scaled_by : ℕ → Value fl.Float → Value fl.Float → Option (Value fl.Float)
  unfolding multiply
  scaled_by n sf_scale v = multiply fl ar v (halves n) >>= (λ w. multiply fl ar w sf_scale)

  abbrev prop_invocations : Stats fl.Float → Option (Value fl.Float)
  unfolding add sum_of_two count_at
  prop_invocations r =
      sum_of_two (codes "decisions") (codes "restarts") r
      >>= (λ n. add fl ar n (count_at (codes "db_reductions") r))
      >>= (λ n. add fl ar n (whole (pos 1)))

  unfoldable pub hw_cycles : Stats fl.Float → Option (Phases (Value fl.Float))
  unfolding add sum_of_two count_at
  hw_cycles r =
      sum_of_two (codes "propagate_cycles") (codes "heap_insert_cycles") r
      >>= (λ n. add fl ar n (count_at (codes "heap_bump_cycles") r))
      >>= (λ hw_prop. sum_of_two (codes "backtrack_cycles") (codes "restart_cycles") r >>= (λ hw_bt.
          some (record {
            propagation = hw_prop;
            learning = count_at (codes "analyze_cycles") r;
            minimize = count_at (codes "minimize_cycles") r;
            backtrack = hw_bt;
            deletion = count_at (codes "reduce_db_cycles") r;
            decision = count_at (codes "decision_cycles") r;
          })))

  module _ (roundtrip : ℤ) (sf_scale : fl.Float) where
    -- v + result.get(key, 0) * roundtrip
    and_trips : Text → Stats fl.Float → Value fl.Float → Option (Value fl.Float)
    unfolding add multiply count_at
    and_trips key r v = multiply fl ar (count_at key r) (whole roundtrip) >>= (λ w. add fl ar v w)

    -- hw_prop + 2 * prop_invocations * roundtrip
    propagation_cost : Stats fl.Float → Value fl.Float → Option (Value fl.Float)
    unfolding add multiply prop_invocations
    propagation_cost r hw_prop =
        prop_invocations r
        >>= (λ n. multiply fl ar (whole (pos 2)) n)
        >>= (λ n. multiply fl ar n (whole roundtrip))
        >>= (λ n. add fl ar hw_prop n)

    -- result.get(sf_key, 0) * sf_scale + result.get(dep_key, 0) * roundtrip
    measured_cost : Text → Text → Stats fl.Float → Option (Value fl.Float)
    unfolding multiply and_trips count_at
    measured_cost sf_key dep_key r =
        multiply fl ar (count_at sf_key r) (real sf_scale) >>= and_trips dep_key r

    unfoldable pub coprocessor_cycles :
        Stats fl.Float → Phases (Value fl.Float) → Option (Phases (Value fl.Float))
    unfolding propagation_cost measured_cost scaled_by and_trips
    coprocessor_cycles r hw = propagation_cost r hw.propagation >>= (λ prop.
        measured_cost (codes "coproc_sf_hw_learning") (codes "coproc_dep_learning") r >>= (λ learn.
          measured_cost (codes "coproc_sf_hw_minimize") (codes "coproc_dep_minimize") r >>= (λ mini.
            (scaled_by 4 (real sf_scale) hw.backtrack
              >>= and_trips (codes "coproc_dep_backtrack") r)
            >>= (λ bt. scaled_by 3 (real sf_scale) hw.deletion >>= (λ del.
                (scaled_by 6 (real sf_scale) hw.decision
                  >>= and_trips (codes "coproc_dep_decision") r)
                >>= (λ dec. some (record {
                  propagation = prop;
                  learning = learn;
                  minimize = mini;
                  backtrack = bt;
                  deletion = del;
                  decision = dec;
                })))))))

    -- The estimates, and the cycles of the hardware.
    unfoldable pub compute_coprocessor :
        Stats fl.Float → Option (Phases (Value fl.Float) × Phases (Value fl.Float))
    unfolding hw_cycles coprocessor_cycles
    compute_coprocessor r =
        hw_cycles r >>= (λ hw. coprocessor_cycles r hw >>= (λ coproc. some (coproc, hw)))

  unfoldable pub phases_total : Phases (Value fl.Float) → Option (Value fl.Float)
  unfolding sum_values
  phases_total p = sum_values fl ar (whole (pos 0)) (in_order p)

  -- {p: sum(c[p] for c in all_coproc) for p in phases}
  sum_phase :
      (Phases (Value fl.Float) → Value fl.Float)
      → List (Phases (Value fl.Float))
      → Option (Value fl.Float)
  unfolding sum_values
  sum_phase f ps = sum_values fl ar (whole (pos 0)) (map f ps)

  unfoldable pub aggregate : List (Phases (Value fl.Float)) → Option (Phases (Value fl.Float))
  unfolding sum_phase
  aggregate ps = sum_phase (λ p. p.propagation) ps >>= (λ prop.
      sum_phase (λ p. p.learning) ps >>= (λ learn. sum_phase (λ p. p.minimize) ps >>= (λ mini.
        sum_phase (λ p. p.backtrack) ps >>= (λ bt. sum_phase (λ p. p.deletion) ps >>= (λ del.
          sum_phase (λ p. p.decision) ps >>= (λ dec. some (record {
            propagation = prop;
            learning = learn;
            minimize = mini;
            backtrack = bt;
            deletion = del;
            decision = dec;
          })))))))

  -- f"{cc / coproc_total * 100.0:.2f}" if coproc_total > 0 else "0.00"
  unfoldable pub pct_text : Value fl.Float → Value fl.Float → Option Text
  unfolding above_zero quotient
  pct_text coproc_total cc = above_zero fl ar coproc_total >>= (λ b. elim b [
    | true ↦ quotient fl ar cc coproc_total >>= (λ x. some (ar.fixed 2 (fl.times x (fl.of_ℕ 100))))
    | false ↦ some (codes "0.00")
  ])

  -- f"{ratio:.4f}", where ratio is 0.0 if the hardware has no cycles
  unfoldable pub ratio_text : Value fl.Float → Value fl.Float → Option Text
  unfolding above_zero quotient
  ratio_text coproc_total hw_total = above_zero fl ar hw_total >>= (λ b. elim b [
    | true ↦ quotient fl ar coproc_total hw_total >>= (λ x. some (ar.fixed 4 x))
    | false ↦ some (ar.fixed 4 (zero_float fl ar))
  ])

  -- [f(v) for v in vs]
  unfoldable pub texts_of :
      (Value fl.Float → Option Text) → List (Value fl.Float) → Option (List Text)
  texts_of f [] = some []
  texts_of f (v ∷ vs) = f v >>= (λ t. texts_of f vs >>= (λ ts. some (t ∷ ts)))

  -- The line that is printed. A comma in the name of the test is not quoted.
  unfoldable pub csv_row : Text → Phases (Value fl.Float) → Phases (Value fl.Float) → Option Text
  unfolding phases_total ratio_text pct_text texts_of fixed_text number_text join
  csv_row test_case coproc hw = phases_total coproc >>= (λ coproc_total.
      phases_total hw >>= (λ hw_total. ratio_text coproc_total hw_total >>= (λ ratio.
        texts_of (number_text fl ar) (in_order hw) >>= (λ hw_vals.
          texts_of (fixed_text fl ar 0) (in_order coproc) >>= (λ cc_vals.
            texts_of (pct_text coproc_total) (in_order coproc) >>= (λ pct_vals.
              number_text fl ar hw_total >>= (λ hw_text.
                fixed_text fl ar 0 coproc_total >>= (λ coproc_text. some (
                  join (codes ",") (
                    (test_case ∷ hw_text ∷ coproc_text ∷ ratio ∷ [])
                    ++ (hw_vals ++ (cc_vals ++ pct_vals))))))))))))

-- any(k.startswith('coproc_') for k in result)
unfoldable pub has_coproc : {F : Type 0} → Stats F → Bool
has_coproc [] = false
has_coproc ((k, v) ∷ r) = starts_with (codes "coproc_") k || has_coproc r

-- The header of the CSV output.
abbrev pub csv_header : List Text
csv_header =
    codes "test_case"
    ∷ codes "hw_total"
    ∷ codes "coproc_total"
    ∷ codes "coproc_hw_ratio"
    ∷ codes "hw_propagation"
    ∷ codes "hw_learning"
    ∷ codes "hw_minimize"
    ∷ codes "hw_backtrack"
    ∷ codes "hw_deletion"
    ∷ codes "hw_decision"
    ∷ codes "coproc_propagation"
    ∷ codes "coproc_learning"
    ∷ codes "coproc_minimize"
    ∷ codes "coproc_backtrack"
    ∷ codes "coproc_deletion"
    ∷ codes "coproc_decision"
    ∷ codes "coproc_propagation_pct"
    ∷ codes "coproc_learning_pct"
    ∷ codes "coproc_minimize_pct"
    ∷ codes "coproc_backtrack_pct"
    ∷ codes "coproc_deletion_pct"
    ∷ codes "coproc_decision_pct"
    ∷ []

-- The first line of the CSV output.
unfoldable csv_header_line : Text
unfolding join
csv_header_line = join (codes ",") csv_header
