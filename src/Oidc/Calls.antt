-- ===== src/Oidc/Calls.antt =====
-- What worker loops call on a `KeySet`, and when.
use oxbrook.Prelude.{ℕ, suc, ◌≤◌, Option, List, [], ◌∷◌}
use oxbrook.Oidc.Keys.{Keys}
use oxbrook.Oidc.KeySet.{KeySet, Network, complete, find, resume_first, discovered, load}

-- What worker loops do with the keys, each at a moment: a token's key is looked for; the look goes on
-- with the keys of a fetch that it waited for; the document is asked for; the keys are loaded, by
-- `OIDC.load`; a fetch completes.
pub data Call : Type 0 where
  finds : ℕ → Option ℕ → ℕ → Call
  resumes : ℕ → Option ℕ → ℕ → Option Keys → Call
  discovers loads : ℕ → Call
  completes : ℕ → Network → Call

abbrev pub moment : Call → ℕ
moment (finds now _ _) = now
moment (resumes now _ _ _) = now
moment (discovers now) = now
moment (loads now) = now
moment (completes now _) = now

unfoldable pub step : Call → KeySet → KeySet
step (finds now kid alg) s = (find now kid alg s).0
step (resumes now kid alg keys) s = (resume_first now kid alg keys s).0
step (discovers now) s = discovered now s
step (loads now) s = load now s
step (completes now net) s = (complete now net s).0

abbrev pub run : List Call → KeySet → KeySet
run [] s = s
run (c ∷ cs) s = run cs (step c s)

-- The moments do not go back, from one up to another.
abbrev pub IsOrdered : ℕ → List Call → ℕ → Type 0
IsOrdered now [] last = now ≤ last
IsOrdered now (c ∷ cs) last = (now ≤ moment c) × IsOrdered (moment c) cs last

abbrev pub count_loads : List Call → ℕ
count_loads [] = 0
count_loads (loads _ ∷ cs) = suc (count_loads cs)
count_loads (_ ∷ cs) = count_loads cs
