-- ===== src/Gpool/Pool/Invariant/Run.antt =====
-- The invariant of the pool holds after every interleaving.
use lgobase.Base.{ℕ, ◌≡◌, refl, List, [], ◌∷◌, Option, none, some}
use lgobase.Base.Int.{ℤ, pos_part}
use lgobase.Gpool.Pool.{Gpool, Config, Task}
use lgobase.Gpool.Pool.World.{
  World, Response, Event, calls, resumes, take_at, advance, step, run, start,
}
use lgobase.Gpool.Pool.Invariant.{Inv, Taken, take_at-Taken}
use lgobase.Gpool.Pool.Invariant.Fresh.{Fresh-Inv, open_pool-Fresh}
use lgobase.Gpool.Pool.Opening.{open_pool}
use lgobase.Gpool.Pool.Borrow.{Created}
use lgobase.Gpool.Pool.Invariant.Settle.{perform-Inv}
use lgobase.Gpool.Pool.Invariant.Resume.{resume-Inv}

-- Every interleaving of any number of goroutines from a world where the invariant holds.
abbrev pub Sound : World → ℕ → Type 0
Sound v limit = Inv v.gp v.tasks limit

advance-Sound :
    (gp : Gpool) (r : Response) (ts : List Task) (limit : ℕ) (o : Option (Task × List Task))
    → Inv gp ts limit
    → ((t : Task) (rest : List Task) → o ≡ some (t, rest) → Taken ts t rest)
    → Sound (advance gp r ts o) limit
unfolding advance
advance-Sound gp r ts limit none v k = v
advance-Sound gp r ts limit (some (t, rest)) v k = resume-Inv gp ts t rest r limit v (k t rest refl)

step-Sound : (v : World) (e : Event) (limit : ℕ) → Sound v limit → Sound (step v e) limit
unfolding step
step-Sound v (calls c) limit i = perform-Inv v.gp v.tasks limit i c
step-Sound v (resumes n r) limit i =
    advance-Sound v.gp r v.tasks limit (take_at n v.tasks) i (λ t rest. take_at-Taken n v.tasks)

pub run-Sound : (v : World) (es : List Event) (limit : ℕ) → Sound v limit → Sound (run v es) limit
unfolding run
run-Sound v [] limit i = i
run-Sound v (e ∷ es) limit i = run-Sound (step v e) es limit (step-Sound v e limit i)

pub reached-Sound :
    (c : Config) (made_now : ℕ → Created × ℤ) (es : List Event)
    → Sound (run (start c made_now) es) (pos_part c.max_conns)
reached-Sound c made_now es =
    run-Sound (start c made_now) es (pos_part c.max_conns)
      (Fresh-Inv (open_pool c made_now) (pos_part c.max_conns) (open_pool-Fresh c made_now))
