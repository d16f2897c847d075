-- ===== src/Scheduler/Order.antt =====
-- The order in which a scan visits the slots.
use gen_os.Common.{
  ℕ, zero, suc, ◌+◌, ◌-◌, ◌<◌, ◌≤◌, ◌≡◌, ◌∙◌, ap, refl, false, none, some, List, [], ◌∷◌, ◌==◌, ltb,
  if◌then◌else◌, arith, get_elem?,
}
use gen_os.Scheduler.{RoundRobin, scan, next, collect}

-- A slot number below `2 * n`, brought below `n`.
abbrev pub wrap : ℕ → ℕ → ℕ
wrap n x = if ltb x n then x else x - n

-- The slots that follow `last`: their number, then `n`.
unfoldable pub following : ℕ → ℕ → ℕ → List ℕ
following n last zero = []
following n last (suc k) = wrap n (last + 1) ∷ following n (wrap n (last + 1)) k

-- The step of a scan that has slots left.
pub next-suc :
    (n k last : ℕ)
    → last < n
    → next n (record { last = last; remaining = suc k })
      ≡ (some (wrap n (last + 1)), record { last = wrap n (last + 1); remaining = k })
unfolding next
next-suc n k last h =
    let here : (if last == n - 1 then 0 else last + 1) ≡ wrap n (last + 1) = ground arith in
    let left : ◌≡◌ {A = ℕ} (suc k - 1) k = omega arith in
    let more : (suc k == 0) ≡ false = ground arith in
    rw (more, next) (λ i. (some (here i), record { last = here i; remaining = left i }))

following-collect :
    (n k last : ℕ)
    → last < n
    → collect n k (record { last = last; remaining = k }) ≡ following n last k
unfolding collect following
following-collect n zero last h = refl
following-collect n (suc k) last h =
    rw (next-suc n k last h, collect, following)
      (rw (next-suc n k last h) (
        ap (λ rest. wrap n (last + 1) ∷ rest)
          (following-collect n k (wrap n (last + 1)) (ground arith))))

get_elem?-following :
    (n k last i : ℕ)
    → last < n
    → k ≤ n
    → get_elem? (following n last k) i ≡ (if ltb i k then some (wrap n (last + 1 + i)) else none)
unfolding following
get_elem?-following n zero last i h small = ground arith
get_elem?-following n (suc k) last zero h small = ground arith
get_elem?-following n (suc k) last (suc i) h small =
    get_elem?-following n k (wrap n (last + 1)) i (ground arith) (omega arith) ∙ ground arith

-- A scan visits the slots in cyclic order, from the one after the last selected slot on, each of
-- the `n` slots once, and ends.
pub collect-scan :
    (n : ℕ) (r : RoundRobin) (i : ℕ)
    → r.last < n
    → get_elem? (collect n (scan n r).remaining (scan n r)) i
      ≡ (if ltb i n then some (wrap n (r.last + 1 + i)) else none)
unfolding scan
collect-scan n r i h =
    ap (λ xs. get_elem? xs i) (following-collect n n r.last h)
    ∙ get_elem?-following n n r.last i h (omega arith)
