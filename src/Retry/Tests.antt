-- ===== src/Retry/Tests.antt =====
-- Tests of src/XrdClPelican/RetryThread.cc and the witnesses.
use xrdcl_pelican.Prelude.{◌≤◌, true, none, some, List, [], ◌∷◌, ◌≡◌, refl}
use xrdcl_pelican.Prelude.Lists.{All}
use xrdcl_pelican.Retry.{
  Entry, RetryState, new_state, start, shut_down, state, push, submit, take_due, returns,
  compute_delay, get_base_delay, wakes,
}
use xrdcl_pelican.Retry.Drained.{
  Firing, times, fired, IsInTime, Runs, begins, starts, submits, stops, fires, Runs-take_due,
  Runs-returns,
}

-- Operation 7 is to run at 500 and operation 8, submitted later, at 300.
abbrev two_waiting : RetryState
two_waiting =
    submit (some (submit (some (start (some new_state))) 100 400 (some 7))) 200 100 (some 8)

abbrev one_left : RetryState
one_left = (take_due two_waiting 310).0

abbrev stopping : RetryState
stopping = state (shut_down (some one_left))

abbrev finished : RetryState
finished = (take_due stopping 500).0

abbrev seven : Entry
seven = record { deadline = 500; operation = some 7 }

abbrev eight : Entry
eight = record { deadline = 300; operation = some 8 }

abbrev submitted : List Entry
submitted = eight ∷ seven ∷ []

both_queued : Runs two_waiting submitted []
both_queued =
    submits (submit (some (start (some new_state))) 100 400 (some 7)) (seven ∷ []) [] 200 100
      (some 8)
      (submits (start (some new_state)) [] [] 100 400 (some 7) (starts new_state [] [] begins))

too_early : take_due two_waiting 299 ≡ (two_waiting, none)
unfolding take_due submit push start
too_early = refl

first_due : take_due two_waiting 310 ≡ (one_left, some eight)
unfolding take_due submit push start
first_due = refl

stopped : shut_down (some one_left) ≡ some stopping
unfolding take_due submit push start shut_down
stopped = refl

second_due : take_due stopping 500 ≡ (finished, some seven)
unfolding take_due submit push start shut_down
second_due = refl

finished_end : returns finished ≡ true
unfolding take_due submit push start shut_down returns
finished_end = refl

-- A thread that is to stop does not wait for the deadline of the operation that is left.
stopping_at_once : wakes stopping 320 ≡ true
unfolding wakes take_due submit push start shut_down
stopping_at_once = refl

third_delay : compute_delay none 3 ≡ 800000000
unfolding compute_delay get_base_delay
third_delay = refl

largest_delay : compute_delay none 20 ≡ 30000000000
unfolding compute_delay get_base_delay
largest_delay = refl

Runs-take_due_example :
    (eight.deadline ≤ 310) × All (λ x. eight.deadline ≤ x.deadline) one_left.queue
Runs-take_due_example =
    Runs-take_due two_waiting one_left eight submitted [] 310 both_queued first_due

abbrev firings : List Firing
firings = record { time = 500; entry = seven } ∷ record { time = 310; entry = eight } ∷ []

all_fired : Runs finished submitted firings
all_fired =
    fires stopping finished seven submitted (record { time = 310; entry = eight } ∷ []) 500
      (stops one_left stopping submitted (record { time = 310; entry = eight } ∷ [])
        (fires two_waiting one_left eight submitted [] 310 both_queued first_due) stopped)
      second_due

Runs-returns_example : (fired 7 firings ≡ times 7 submitted) × All IsInTime firings
Runs-returns_example = Runs-returns finished submitted firings 7 all_fired finished_end
