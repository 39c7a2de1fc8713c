-- ===== src/Trace/Header/Views.antt =====
-- `iter_events` in two views of one file.
use sst_sat.Base.{ℕ, ◌≡◌, refl, List, Option, none, some}
use sst_sat.Base.Result.{Result, ok, raise}
use sst_sat.Python.Text.{Text, codes}
use sst_sat.Trace.Error.{Error}
use sst_sat.Trace.Event.{View, view_of}
use sst_sat.Trace.Reader.{Stream}
use sst_sat.Trace.Reader.Views.{visible, body_events-filtered}
use sst_sat.Trace.Header.{open_body, stream_of, iter_events}

SameIn : View → Stream → Stream → Type 0
SameIn v t u = (t.events ≡ visible v u.events) × (t.ending ≡ u.ending)

stream_of-SameIn :
    (v : View) (r : Option (Result Error (List ℕ)))
    → SameIn v (stream_of v r) (stream_of View.all r)
unfolding SameIn
stream_of-SameIn v none = unfold visible in (refl, refl)
stream_of-SameIn v (some (raise e)) = unfold visible in (refl, refl)
stream_of-SameIn v (some (ok body)) = body_events-filtered v body

pub iter_events-named :
    (file : List ℕ) (name : Text) (v : View)
    → view_of name ≡ some v
    → iter_events file name ≡ stream_of v (open_body file)
unfolding iter_events
iter_events-named file name v h = rw (h, iter_events)

-- On any file, a named view yields exactly the events of the view `all` that the table of the views
-- names for it, in the same order, and ends in the same way, with the same error if there is one.
pub iter_events-view :
    (file : List ℕ) (name : Text) (v : View)
    → view_of name ≡ some v
    → ((iter_events file name).events ≡ visible v (iter_events file (codes "all")).events)
      × ((iter_events file name).ending ≡ (iter_events file (codes "all")).ending)
unfolding SameIn
iter_events-view file name v h =
    rw
      (
        iter_events-named file name v h,
        iter_events-named file (codes "all") View.all (unfold view_of in refl),
      )
      (stream_of-SameIn v (open_body file))
