-- ===== src/ImportLimit/Recent.antt =====
-- What counts of a sequence of instants, and how pruning finds it.
use tag_pulse.Prelude.{
  ℕ, ◌+◌, ◌≤◌, leb, ◌≡◌, refl, ap, List, [], ◌∷◌, ◌++◌, ◌==◌, nat_eq, keep, if◌then◌else◌, arith,
}
use tag_pulse.ImportLimit.{window_seconds, prune}

-- The instants that still count.
abbrev pub recent : ℕ → List ℕ → List ℕ
recent ts = keep (λ at. leb ts (at + window_seconds))

-- Instants that do not run backwards, between two bounds.
abbrev pub Ascending : ℕ → ℕ → List ℕ → Type 0
Ascending lo hi [] = lo ≤ hi
Ascending lo hi (at ∷ rest) = (lo ≤ at) × Ascending at hi rest

pub Ascending-weaken :
    (lo lo' hi : ℕ) (xs : List ℕ) → lo ≤ lo' → Ascending lo' hi xs → Ascending lo hi xs
Ascending-weaken lo lo' hi [] h a = omega arith
Ascending-weaken lo lo' hi (x ∷ xs) h a = (ground (arith, a.0), a.1)

pub Ascending-append :
    (lo hi at : ℕ) (xs : List ℕ) → Ascending lo hi xs → hi ≤ at → Ascending lo at (xs ++ at ∷ [])
Ascending-append lo hi at [] a h = ground arith
Ascending-append lo hi at (x ∷ xs) a h = (a.0, Ascending-append x hi at xs a.1 h)

pub Ascending-later :
    (lo hi hi' : ℕ) (xs : List ℕ) → hi ≤ hi' → Ascending lo hi xs → Ascending lo hi' xs
Ascending-later lo hi hi' [] h a = omega arith
Ascending-later lo hi hi' (x ∷ xs) h a = (a.0, Ascending-later x hi hi' xs h a.1)

pub recent_all :
    (ts lo hi : ℕ) (xs : List ℕ) → Ascending lo hi xs → ts ≤ lo + window_seconds → recent ts xs ≡ xs
recent_all ts lo hi [] a h = refl
recent_all ts lo hi (x ∷ xs) a h = ground (arith, recent_all ts x hi xs)

pub prune-recent : (ts lo hi : ℕ) (xs : List ℕ) → Ascending lo hi xs → prune ts xs ≡ recent ts xs
unfolding prune
prune-recent ts lo hi [] a = refl
prune-recent ts lo hi (x ∷ xs) a =
    ground (arith, prune-recent ts x hi xs a.1, recent_all ts x hi xs a.1)

pub prune-Ascending :
    (ts lo hi : ℕ) (xs : List ℕ) → Ascending lo hi xs → Ascending lo hi (prune ts xs)
unfolding prune
prune-Ascending ts lo hi [] a = a
prune-Ascending ts lo hi (x ∷ xs) a =
    ground (arith, Ascending-weaken lo x hi (prune ts xs) a.0, prune-Ascending ts x hi xs a.1)

pub recent-recent :
    (ts later : ℕ) (xs : List ℕ) → ts ≤ later → recent later (recent ts xs) ≡ recent later xs
recent-recent ts later [] h = refl
recent-recent ts later (x ∷ xs) h = ground (arith, recent-recent ts later xs)

pub recent-append : (ts : ℕ) (xs ys : List ℕ) → recent ts (xs ++ ys) ≡ recent ts xs ++ recent ts ys
recent-append ts [] ys = refl
recent-append ts (x ∷ xs) ys = ground (arith, recent-append ts xs ys)

pub append-[] : {A : Type 0} (xs : List A) → xs ++ [] ≡ xs
append-[] [] = refl
append-[] (x ∷ xs) = ap (λ rest. x ∷ rest) (append-[] xs)

-- The instants of a tenant in a log of (tenant, instant).
abbrev pub times : ℕ → List (ℕ × ℕ) → List ℕ
times tenant [] = []
times tenant (entry ∷ log) =
    let rest = times tenant log in if entry.0 == tenant then entry.1 ∷ rest else rest

pub times-append :
    (tenant : ℕ) (log more : List (ℕ × ℕ))
    → times tenant (log ++ more) ≡ times tenant log ++ times tenant more
times-append tenant [] more = refl
times-append tenant (entry ∷ log) more = ground (arith, times-append tenant log more)
