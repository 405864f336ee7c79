-- ===== src/Files/Obsolete/Steps.antt =====
-- One round of the loop of collect_obsoletes, taken apart.
use xbps.Common.{List, [], ◌∷◌, ◌++◌, ◌≡◌, refl, true, arith, Rv}
use xbps.Files.Types.{Item}
use xbps.Files.Obsolete.{
  Env, Verdict, skip, gone, fail, remove, verdict, remover, add_obsolete, Sweep, Outcome, done,
  stop, apply_verdict, sweep_step, sweep,
}

-- A sweep that succeeds goes on from a round that succeeds.
pub sweep-cons :
    (env : Env) (s : Sweep) (i : Item) (rest : List Item) {s' : Sweep}
    → sweep env s (i ∷ rest) ≡ done s'
    → (s1 : Sweep) × (sweep_step env s i ≡ done s1) × (sweep env s1 rest ≡ done s')
unfolding sweep
sweep-cons env s i rest {s'} h = go (sweep_step env s i) refl
  where
    go :
        (o : Outcome)
        → sweep_step env s i ≡ o
        → (s1 : Sweep) × (sweep_step env s i ≡ done s1) × (sweep env s1 rest ≡ done s')
    go (done s1) e = (s1, e, ground arith)
    go (stop x) e = absurd (ground arith)

-- What a round that succeeds leaves: the arrays are as they were and the item kept or found gone,
-- or the verdict is removal, and the file is the newest of its remover's array.
pub data Round (env : Env) (s : Sweep) (i : Item) (s1 : Sweep) : Type 0 where
  kept : s1.before ≡ s.before ++ i ∷ [] → s1.obsd ≡ s.obsd → Round env s i s1
  vanished :
      s1.before ≡ s.before ++ record i { deleted = true } ∷ [] → s1.obsd ≡ s.obsd → Round env s i s1
  removed :
      (rv : Rv)
      → verdict env s.before s.rv i ≡ remove rv
      → s1.before ≡ s.before ++ record i { deleted = true } ∷ []
      → s1.obsd ≡ add_obsolete (remover i) i.file s.obsd
      → Round env s i s1

pub sweep_step-Round :
    (env : Env) (s : Sweep) (i : Item) {s1 : Sweep}
    → sweep_step env s i ≡ done s1
    → Round env s i s1
unfolding sweep_step apply_verdict
sweep_step-Round env s i {s1} h = go (verdict env s.before s.rv i) refl
  where
    go : (v : Verdict) → verdict env s.before s.rv i ≡ v → Round env s i s1
    go (skip rv) e = kept (ground arith) (ground arith)
    go gone e = vanished (ground arith) (ground arith)
    go (fail x) e = absurd (ground arith)
    go (remove rv) e = removed rv e (ground arith) (ground arith)
