-- ===== src/Quota/Keyed/Flow.antt =====
-- Keyed calls that overlap: `_dispatch_keyed` of quota.py reads the usage before the handler runs and
-- writes it after it, and other calls come and end between.
use billcommons.Base.{ℕ, zero, suc, List, [], ◌∷◌}
use billcommons.RateLimit.Middleware.{Headers}
use billcommons.Quota.Plans.{ResolvedKey}
use billcommons.Quota.Keyed.{
  Usage, Quotas, Call, Admission, admitted, refused, admit_keyed, serve_keyed,
}

-- Calls that overlap. `running` are those whose handlers run, each with its key, its headers and
-- the usage that its pre-check has read.
pub record Flow : Type 0 where
  pub quotas : Quotas
  pub running : List (Call × ResolvedKey × Headers × Usage)

pub data Moment : Type 0 where
  arrives : Call → Moment
  ends : ℕ → Moment

abbrev pub enter :
    Call
    → Admission
    → List (Call × ResolvedKey × Headers × Usage)
    → List (Call × ResolvedKey × Headers × Usage)
enter r (refused reply) running = running
enter r (admitted k burst seen) running = (r, k, burst, seen) ∷ running

-- The handler of the call at a place of the list is over, and its usage is written.
unfoldable pub finish_at :
    ℕ
    → Quotas
    → List (Call × ResolvedKey × Headers × Usage)
    → Quotas × List (Call × ResolvedKey × Headers × Usage)
finish_at n q [] = (q, [])
finish_at zero q ((r, k, burst, seen) ∷ running) = ((serve_keyed r k burst seen q).0, running)
finish_at (suc n) q (x ∷ running) = let (q', rest) = finish_at n q running in (q', x ∷ rest)

unfoldable pub happen : Moment → Flow → Flow
happen (arrives r) w =
    let (q, a) = admit_keyed r w.quotas in record { quotas = q; running = enter r a w.running }
happen (ends n) w =
    let (q, rest) = finish_at n w.quotas w.running in record { quotas = q; running = rest }

unfoldable pub happen_all : List Moment → Flow → Flow
happen_all [] w = w
happen_all (m ∷ ms) w = happen_all ms (happen m w)
