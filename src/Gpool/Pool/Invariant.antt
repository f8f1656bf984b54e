-- ===== src/Gpool/Pool/Invariant.antt =====
-- The invariant of a pool of gpool/gpool.go with its goroutines.
pub mod Fresh
pub mod Settle
pub mod Resume
pub mod Run
use lgobase.Base.{
  ℕ, zero, suc, ◌+◌, ◌-◌, ◌≡◌, inl, inr, subst, List, [], ◌∷◌, ◌++◌, some, arith, length,
  length-append, count, count-append, false, Option-cases,
}
use lgobase.Base.Int.{pos_part}
use lgobase.Gpool.Pool.{Gpool, Task}
use lgobase.Gpool.Pool.World.{take_at}
use lgobase.Gpool.Pool.Counters.{Counts, task_closings, task_makers}
use lgobase.Gpool.Pool.Ownership.{Owns}
use lgobase.Gpool.Pool.Parking.{ClosesIdle}

abbrev pub closings : List Task → List ℕ
closings [] = []
closings (t ∷ ts) = task_closings t ++ closings ts

abbrev pub makers : List Task → ℕ
makers [] = 0
makers (t ∷ ts) = task_makers t + makers ts

abbrev pub NoneClosesIdle : List Task → Type 0
NoneClosesIdle [] = Unit {0}
NoneClosesIdle (t ∷ ts) = ClosesIdle t × NoneClosesIdle ts

-- The invariant of a pool with the goroutines at `ts`.
pub record Inv (gp : Gpool) (ts : List Task) (limit : ℕ) : Type 0 where
  pub counts : Counts gp (length (closings ts)) (makers ts) (suc limit)
  pub owns : Owns gp (λ c. count c (closings ts))
  pub limit_is : pos_part gp.max_conns ≡ limit
  pub idle_closers : gp.closed ≡ false → NoneClosesIdle ts

-- A task that is taken from its place.
pub record Taken (ts : List Task) (t : Task) (rest : List Task) : Type 0 where
  pub closing_count : length (closings ts) ≡ length (task_closings t) + length (closings rest)
  pub makers_count : makers ts ≡ task_makers t + makers rest
  pub closer_count :
      (c : ℕ) → count c (closings ts) ≡ count c (task_closings t) + count c (closings rest)
  pub spared : NoneClosesIdle ts → ClosesIdle t × NoneClosesIdle rest

Taken-later : (u : Task) {us vs : List Task} {t : Task} → Taken us t vs → Taken (u ∷ us) t (u ∷ vs)
Taken-later u {us} {vs} {t} k = record {
  closing_count = ground (
    arith,
    k.closing_count,
    length-append (task_closings u) (closings us),
    length-append (task_closings u) (closings vs),
  );
  makers_count = ground (arith, k.makers_count);
  closer_count = λ c. ground (
    arith,
    k.closer_count c,
    count-append c (task_closings u) (closings us),
    count-append c (task_closings u) (closings vs),
  );
  spared = ground (arith, k.spared);
}

pub take_at-Taken :
    (i : ℕ) (ts : List Task) {t : Task} {rest : List Task}
    → take_at i ts ≡ some (t, rest)
    → Taken ts t rest
unfolding take_at
take_at-Taken i [] e = cc
take_at-Taken zero (u ∷ us) {t} {rest} e = record {
  closing_count = ground (arith, length-append (task_closings u) (closings us));
  makers_count = ground arith;
  closer_count = λ c. ground (arith, count-append c (task_closings u) (closings us));
  spared = ground arith;
}
take_at-Taken (suc i) (u ∷ us) {t} {rest} e = elim (Option-cases (take_at i us)) [
  | inl n ↦ cc
  | inr ((v, vs), f) ↦
      let same_t : v ≡ t = cc in
      let same_rest : u ∷ vs ≡ rest = cc in
      let taken = Taken-later u (take_at-Taken i us f) in
      subst (λ x. Taken (u ∷ us) x rest) same_t (subst (Taken (u ∷ us) v) same_rest taken)
]
