-- ===== src/Gpool/Pool/Overtaken.antt =====
-- `Get` of gpool/gpool.go, overtaken between the two writes of the state of the connection that it takes
-- from the ring: `getConnFromIdle` stores `borrowed` there, and for a stale connection `closing`, and
-- between them a caller that has given the connection back before can win the compare-and-swap of
-- `Close` or `Discard`, which take no mutex for it. The section of that call follows later. The world
-- of `Gpool.Pool.World` is the one where this does not happen.
pub mod Miscount
use lgobase.Base.{
  ℕ, ◌+◌, ◌-◌, ◌≡◌, refl, Bool, List, [], ◌∷◌, ◌++◌, Option, none, some, length, get_elem?, ltb,
  ◌==◌, ◌||◌, if◌then◌else◌,
}
use lgobase.Base.Int.{ℤ}
use lgobase.Gpool.IdleQueue.{IdleQueue, pop, pop_newest}
use lgobase.Gpool.Pool.{
  Gpool, PoolConn, Config, borrowed, returning, reopens, returns, Outcome, returned, panicked,
  store_state,
}
use lgobase.Gpool.Pool.Locked.{close_begin}
use lgobase.Gpool.Pool.Borrow.{Created, is_stale, get}
use lgobase.Gpool.Pool.Return.{put}
use lgobase.Gpool.Pool.World.{World, Event, settle, step, run, start}

-- The call that is made again on a connection that was given back.
pub data Again : Type 0 where
  closes_again discards_again : Again

-- `getConnFromIdle` from the popped connection on, with the compare-and-swap behind the first write.
unfoldable pub use_idle_overtaken : Gpool → ℕ → Option PoolConn → ℤ → Bool → Gpool × Outcome
use_idle_overtaken gp c none now is_open = (gp, panicked)
use_idle_overtaken gp c (some pc) now is_open =
    let gp' = store_state (store_state gp c borrowed) c returning in
    if is_stale gp pc now is_open
    then close_begin gp' c reopens
    else (record gp' { in_use = gp'.in_use + 1 }, returned (some c) none)

abbrev pub take_idle_overtaken :
    Gpool → IdleQueue ℕ × Option ℕ → ℤ → (ℕ → Bool) → Gpool × Outcome × Option ℕ
take_idle_overtaken gp (q, none) now is_open = (gp, panicked, none)
take_idle_overtaken gp (q, some c) now is_open =
    let (gp', out) =
      use_idle_overtaken (record gp { idle = q }) c (get_elem? gp.conns c) now (is_open c) in
    (gp', out, some c)

abbrev pub undisturbed_get : Gpool × Outcome → Gpool × Outcome × Option ℕ
undisturbed_get (gp, out) = (gp, out, none)

-- `Get`, with the connection on which it was overtaken, if it took one from the ring.
unfoldable pub get_overtaken : Gpool → ℤ → (ℕ → Bool) → Gpool × Outcome × Option ℕ
get_overtaken gp now is_open =
    if gp.closed || ltb 0 (length gp.waiters) || gp.idle.size == 0
    then undisturbed_get (get gp now is_open)
    else take_idle_overtaken gp (if gp.pool_fifo then pop gp.idle else pop_newest gp.idle) now
        is_open

-- The section that follows a compare-and-swap that was won.
unfoldable pub return_late : Gpool → ℕ → Option PoolConn → Again → ℤ → Bool → Gpool × Outcome
return_late gp c none how now is_open = (gp, panicked)
return_late gp c (some pc) closes_again now is_open = put gp c pc now is_open
return_late gp c (some pc) discards_again now is_open =
    close_begin (record gp { in_use = gp.in_use - 1 }) c returns

-- A world with the goroutines that have won a compare-and-swap inside a `Get`, the first one first.
pub record RacyWorld : Type 0 where
  pub world : World
  pub returners : List (ℕ × Again)

pub data RacyEvent : Type 0 where
  undisturbed : Event → RacyEvent
  gets_overtaken : ℤ → (ℕ → Bool) → Again → RacyEvent
  returns_late : ℤ → Bool → RacyEvent

abbrev pub later : Option ℕ → Again → List (ℕ × Again)
later none how = []
later (some c) how = (c, how) ∷ []

abbrev pub settled : World → Gpool × Outcome → World
settled v (gp, out) = record { gp = gp; tasks = settle [] out v.tasks }

abbrev pub get_step : RacyWorld → Gpool × Outcome × Option ℕ → Again → RacyWorld
get_step v (gp, out, won) how = record {
  world = settled v.world (gp, out);
  returners = v.returners ++ later won how;
}

abbrev pub late_step : World → List (ℕ × Again) → ℤ → Bool → RacyWorld
late_step v [] now is_open = record { world = v; returners = [] }
late_step v ((c, how) ∷ rest) now is_open = record {
  world = settled v (return_late v.gp c (get_elem? v.gp.conns c) how now is_open);
  returners = rest;
}

unfoldable pub racy_step : RacyWorld → RacyEvent → RacyWorld
racy_step v (undisturbed e) = record v { world = step v.world e }
racy_step v (gets_overtaken now is_open how) = get_step v (get_overtaken v.world.gp now is_open) how
racy_step v (returns_late now is_open) = late_step v.world v.returners now is_open

unfoldable pub racy_run : RacyWorld → List RacyEvent → RacyWorld
racy_run v [] = v
racy_run v (e ∷ es) = racy_run (racy_step v e) es

abbrev pub racy_start : Config → (ℕ → Created × ℤ) → RacyWorld
racy_start c made_now = record { world = start c made_now; returners = [] }

-- No `Get` of the events is overtaken.
abbrev pub NoneOvertaken : List RacyEvent → Type 0
NoneOvertaken [] = Unit {0}
NoneOvertaken (undisturbed e ∷ es) = NoneOvertaken es
NoneOvertaken (gets_overtaken now is_open how ∷ es) = ⊥
NoneOvertaken (returns_late now is_open ∷ es) = NoneOvertaken es

pub racy_run-undisturbed :
    (v : World) (es : List RacyEvent)
    → NoneOvertaken es
    → (fs : List Event) × ((racy_run (record { world = v; returners = [] }) es).world ≡ run v fs)
unfolding racy_run racy_step run
racy_run-undisturbed v [] calm = ([], refl)
racy_run-undisturbed v (undisturbed e ∷ es) calm =
    let (fs, same) = racy_run-undisturbed (step v e) es calm in (e ∷ fs, same)
racy_run-undisturbed v (gets_overtaken now is_open how ∷ es) calm = absurd calm
racy_run-undisturbed v (returns_late now is_open ∷ es) calm = racy_run-undisturbed v es calm
