-- ===== src/Trace/Reader/Views.antt =====
-- The `view` argument of `iter_events`: a filter on the events of the view `all`.
use sst_sat.Base.{
  ℕ, zero, suc, ◌≡◌, refl, ap, length, Bool, true, false, ◌||◌, List, [], ◌∷◌, ◌==◌, if◌then◌else◌,
  arith,
}
use sst_sat.Base.Result.{Result, ok, raise}
use sst_sat.Trace.Error.{Error}
use sst_sat.Trace.Event.{View, Event}
use sst_sat.Trace.Reader.{
  init, Reader, Turn, go, yield, stop, Branch, Stream, shows_mem, on_tick, on_phase, on_level,
  on_mem, on_decide, on_enqueue, on_conflict, on_learn, on_backtrack, on_restart, on_reduce,
  on_finish, turn, events_loop, body_events,
}

-- The table of the views, as the head of the module describes it.
unfoldable pub in_view : View → Event → Bool
in_view View.all e = true
in_view View.memory (Event.mem _ _ _ _ _ _ _) = true
in_view View.algo (Event.decide _ _ _ _) = true
in_view View.algo (Event.enqueue _ _ _ _) = true
in_view View.algo (Event.conflict _ _) = true
in_view View.algo (Event.learn _ _ _ _ _) = true
in_view View.algo (Event.backtrack _ _ _) = true
in_view View.algo (Event.restart _ _) = true
in_view View.algo (Event.reduce _ _ _) = true
in_view View.literal (Event.decide _ _ _ _) = true
in_view View.literal (Event.enqueue _ _ _ _) = true
in_view View.clause (Event.conflict _ _) = true
in_view View.clause (Event.learn _ _ _ _ _) = true
in_view View.clause (Event.reduce _ _ _) = true
in_view View.clause (Event.mem _ _ _ ds _ _ _) = (ds == 5) || (ds == 6)
in_view View.phase (Event.phase _ _) = true
in_view v e = false

unfoldable pub visible : View → List Event → List Event
unfolding in_view
visible v [] = []
visible v (e ∷ es) = let rest = visible v es in if in_view v e then e ∷ rest else rest

restrict : View → Turn → Turn
restrict v (go s rest) = go s rest
restrict v (yield e s rest) = if in_view v e then yield e s rest else go s rest
restrict v (stop es) = stop (visible v es)

restrict_ok : View → Result Error Turn → Result Error Turn
unfolding restrict
restrict_ok v (ok t) = ok (restrict v t)
restrict_ok v (raise e) = raise e

IsFiltered : Branch → Type 0
IsFiltered b = (v : View) (buf : List ℕ) (s : Reader) → b v buf s ≡ restrict_ok v (b View.all buf s)

on_tick-IsFiltered : IsFiltered on_tick
unfolding IsFiltered restrict_ok on_tick
on_tick-IsFiltered v buf s = ground arith

on_decide-IsFiltered : IsFiltered on_decide
unfolding IsFiltered restrict_ok on_decide in_view
on_decide-IsFiltered v buf s = ground arith

on_phase-IsFiltered : IsFiltered on_phase
unfolding IsFiltered restrict_ok on_phase in_view
on_phase-IsFiltered v buf s = ground arith

on_level-IsFiltered : IsFiltered on_level
unfolding IsFiltered restrict_ok on_level
on_level-IsFiltered v buf s = ground arith

on_mem-IsFiltered : (is_write : Bool) → IsFiltered (on_mem is_write)
unfolding IsFiltered restrict_ok on_mem in_view shows_mem
on_mem-IsFiltered is_write v buf s = ground arith

on_enqueue-IsFiltered : IsFiltered on_enqueue
unfolding IsFiltered restrict_ok on_enqueue in_view
on_enqueue-IsFiltered v buf s = ground arith

on_conflict-IsFiltered : IsFiltered on_conflict
unfolding IsFiltered restrict_ok on_conflict in_view
on_conflict-IsFiltered v buf s = ground arith

on_learn-IsFiltered : IsFiltered on_learn
unfolding IsFiltered restrict_ok on_learn in_view
on_learn-IsFiltered v buf s = ground arith

on_backtrack-IsFiltered : IsFiltered on_backtrack
unfolding IsFiltered restrict_ok on_backtrack in_view
on_backtrack-IsFiltered v buf s = ground arith

on_restart-IsFiltered : IsFiltered on_restart
unfolding IsFiltered restrict_ok on_restart in_view
on_restart-IsFiltered v buf s = ground arith

on_reduce-IsFiltered : IsFiltered on_reduce
unfolding IsFiltered restrict_ok on_reduce in_view
on_reduce-IsFiltered v buf s = ground arith

on_finish-IsFiltered : IsFiltered on_finish
unfolding IsFiltered restrict_ok on_finish visible
on_finish-IsFiltered v buf s = ground arith

turn-IsFiltered : (n tag : ℕ) → IsFiltered (turn n tag)
unfolding turn IsFiltered restrict_ok
turn-IsFiltered n tag v buf s = ground (
  arith,
  on_tick-IsFiltered v buf s,
  on_phase-IsFiltered v buf s,
  on_level-IsFiltered v buf s,
  on_decide-IsFiltered v buf s,
  on_enqueue-IsFiltered v buf s,
  on_conflict-IsFiltered v buf s,
  on_learn-IsFiltered v buf s,
  on_backtrack-IsFiltered v buf s,
  on_restart-IsFiltered v buf s,
  on_reduce-IsFiltered v buf s,
  on_finish-IsFiltered v buf s,
  on_mem-IsFiltered true v buf s,
  on_mem-IsFiltered false v buf s,
)

-- The stream of `all` with the events of one view.
filtered : View → Stream → Stream
filtered v t = record { events = visible v t.events; ending = t.ending }

-- One turn, on each of its outcomes in the view `all`.
loop_turn :
    (n fuel tag : ℕ) (v : View) (buf : List ℕ) (s : Reader) (r : Result Error Turn)
    → turn n tag View.all buf s ≡ r
    → ((rest : List ℕ) (s' : Reader)
        → events_loop n fuel v rest s' ≡ filtered v (events_loop n fuel View.all rest s'))
    → events_loop n (suc fuel) v (tag ∷ buf) s
      ≡ filtered v (events_loop n (suc fuel) View.all (tag ∷ buf) s)
unfolding events_loop filtered visible restrict_ok restrict IsFiltered
loop_turn n fuel tag v buf s (raise e) h ih = ground (arith, turn-IsFiltered n tag v buf s)
loop_turn n fuel tag v buf s (ok (go s' rest)) h ih =
    ground (arith, turn-IsFiltered n tag v buf s, ih rest s')
loop_turn n fuel tag v buf s (ok (yield e s' rest)) h ih =
    ground (arith, turn-IsFiltered n tag v buf s, ih rest s')
loop_turn n fuel tag v buf s (ok (stop es)) h ih = ground (arith, turn-IsFiltered n tag v buf s)

events_loop-filtered :
    (n fuel : ℕ) (v : View) (buf : List ℕ) (s : Reader)
    → events_loop n fuel v buf s ≡ filtered v (events_loop n fuel View.all buf s)
unfolding filtered events_loop visible
events_loop-filtered n fuel v [] s = refl
events_loop-filtered n zero v (tag ∷ buf) s = refl
events_loop-filtered n (suc fuel) v (tag ∷ buf) s =
    loop_turn n fuel tag v buf s _ refl (λ rest s'. events_loop-filtered n fuel v rest s')

pub body_events-filtered :
    (v : View) (buf : List ℕ)
    → ((body_events v buf).events ≡ visible v (body_events View.all buf).events)
      × ((body_events v buf).ending ≡ (body_events View.all buf).ending)
unfolding body_events filtered
body_events-filtered v buf =
    let e = events_loop-filtered (length buf) (length buf) v buf init in
    (ap (λ t. t.events) e, ap (λ t. t.ending) e)
