-- ===== src/Editor/Recall.antt =====
-- The walk through the command history of userspace/shell/src/editor.rs.
use gen_os.Common.{
  ℕ, zero, suc, ◌+◌, ◌-◌, ◌<◌, ◌≤◌, ◌≡◌, ◌≢◌, refl, ap, sym, ◌∙◌, true, false, ◌||◌, List, [], ◌==◌,
  ltb, if◌then◌else◌, get_or, set, length, arith, leb, ℕ_discrete, Bool-cases, inl, inr,
  get_or-set_self, get_or-set_ne, length-set,
}
use gen_os.Editor.{Editor, text, remember, shift, history_up, history_down, recall}

-- `k` steps up.
unfoldable pub ups : ℕ → Editor → Editor
ups zero e = e
ups (suc k) e = ups k (history_up e).1

unfoldable pub downs : ℕ → Editor → Editor
downs zero e = e
downs (suc k) e = downs k (history_down e).1

-- The editor that shows the history entry `index`, with the draft kept.
abbrev showing : Editor → ℕ → Editor
showing e index = record (recall e index) {
  draft = e.line;
  draft_len = e.len;
  draft_cursor = e.cursor;
}

first_up :
    (e : Editor)
    → e.history_cursor ≡ e.history_len
    → e.history_len ≢ 0
    → (history_up e).1 ≡ showing e (e.history_len - 1)
unfolding history_up
first_up e at some =
    let no : (e.history_len == 0 || (e.history_cursor == 0)) ≡ false = ground arith in
    let starts : (e.history_cursor == e.history_len) ≡ true = ground arith in
    rw (no, history_up) (rw starts (ap (showing e) (omega (arith, at))))

next_up :
    (e : Editor) (index : ℕ)
    → index < e.history_len
    → index ≢ 0
    → (history_up (showing e index)).1 ≡ showing e (index - 1)
unfolding history_up
next_up e index less some =
    let no : (e.history_len == 0 || (index == 0)) ≡ false = ground arith in
    let walks : (index == e.history_len) ≡ false = ground arith in
    rw (no, history_up) (rw walks refl)

next_down :
    (e : Editor) (index : ℕ)
    → index + 1 < e.history_len
    → (history_down (showing e index)).1 ≡ showing e (index + 1)
unfolding history_down
next_down e index less =
    let no : (index == e.history_len) ≡ false = ground arith in
    let walks : (index + 1 == e.history_len) ≡ false = ground arith in
    rw (no, walks, history_down) refl

ups-showing :
    (k : ℕ) (e : Editor) (index : ℕ)
    → k ≤ index
    → index < e.history_len
    → ups k (showing e index) ≡ showing e (index - k)
unfolding ups
ups-showing zero e index few less = ap (showing e) (omega arith)
ups-showing (suc k) e index few less =
    ap (ups k) (next_up e index less (omega arith))
    ∙ ups-showing k e (index - 1) (omega arith) (omega arith)
    ∙ ap (showing e) (omega arith)

downs-showing :
    (k : ℕ) (e : Editor) (index : ℕ)
    → index + k < e.history_len
    → downs k (showing e index) ≡ showing e (index + k)
unfolding downs
downs-showing zero e index less = ap (showing e) (omega arith)
downs-showing (suc k) e index less =
    ap (downs k) (next_down e index (omega arith))
    ∙ downs-showing k e (index + 1) (omega arith)
    ∙ ap (showing e) (omega arith)

downs-suc : (k : ℕ) (e : Editor) → downs (suc k) e ≡ (history_down (downs k e)).1
unfolding downs
downs-suc zero e = refl
downs-suc (suc k) e = downs-suc k (history_down e).1

last_down :
    (e : Editor) (index : ℕ)
    → e.history_cursor ≡ e.history_len
    → index + 1 ≡ e.history_len
    → (history_down (showing e index)).1
      ≡ record e { draft = e.line; draft_len = e.len; draft_cursor = e.cursor }
unfolding history_down
last_down e index at less =
    let no : (index == e.history_len) ≡ false = ground arith in
    let ends : (index + 1 == e.history_len) ≡ true = ground arith in
    let back : index + 1 ≡ e.history_cursor = omega (arith, at, less) in
    rw (no, ends, history_down)
      (ap
        (λ c. record e {
          draft = e.line;
          draft_len = e.len;
          draft_cursor = e.cursor;
          history_cursor = c;
        })
        back)

ups-entry :
    (k : ℕ) (e : Editor)
    → e.history_cursor ≡ e.history_len
    → k < e.history_len
    → ups (suc k) e ≡ showing e (e.history_len - 1 - k)
unfolding ups
ups-entry k e at less =
    ap (ups k) (first_up e at (omega arith))
    ∙ ups-showing k e (e.history_len - 1) (omega arith) (omega arith)

-- Walking up by `k + 1` entries shows the entry that was remembered `k` entries before the last,
-- and walking down as far shows the unfinished line again, with its cursor where it was.
pub downs-ups :
    (k : ℕ) (e : Editor)
    → e.history_cursor ≡ e.history_len
    → k < e.history_len
    → ((ups (suc k) e).line ≡ get_or e.history (e.history_len - 1 - k) [])
      × ((ups (suc k) e).len ≡ get_or e.history_lens (e.history_len - 1 - k) 0)
      × (text (downs (suc k) (ups (suc k) e)) ≡ text e)
      × ((downs (suc k) (ups (suc k) e)).cursor ≡ e.cursor)
downs-ups k e at less =
    let up = ups-entry k e at less in
    let back : downs (suc k) (ups (suc k) e)
        ≡ record e { draft = e.line; draft_len = e.len; draft_cursor = e.cursor } =
      ap (downs (suc k)) up
      ∙ downs-suc k (showing e (e.history_len - 1 - k))
      ∙ ap (λ x. (history_down x).1) (downs-showing k e (e.history_len - 1 - k) (omega arith))
      ∙ last_down e (e.history_len - 1 - k + k) at (omega arith) in
    (ap (λ x. x.line) up, ap (λ x. x.len) up, ap (λ x. text x) back, ap (λ x. x.cursor) back)

-- The loop of `remember` moves the elements at `index` and after it one place down.
get_or-shift {ℓ} :
    {A : Type ℓ} (d : A) (xs : List A) (index left i : ℕ)
    → 0 < index
    → index + left ≤ length xs
    → get_or (shift d xs index left) i d ≡ (
        if ltb i (index - 1) || leb (index - 1 + left) i
        then get_or xs i d
        else get_or xs (i + 1) d)
unfolding shift
get_or-shift d xs index zero i pos room = ground arith
get_or-shift {A = A} d xs index (suc left) i pos room =
    get_or-shift d (set xs (index - 1) (get_or xs index d)) (index + 1) left i (omega arith)
      (omega (arith, length-set xs (index - 1) (get_or xs index d)))
    ∙ moved
  where
    v : A
    v = get_or xs index d

    keeps : (j : ℕ) → j ≢ index - 1 → get_or (set xs (index - 1) v) j d ≡ get_or xs j d
    keeps j ne = get_or-set_ne xs (index - 1) j v d (λ e. ne (sym e))

    moved :
        (if ltb i (index + 1 - 1) || leb (index + 1 - 1 + left) i
          then get_or (set xs (index - 1) v) i d
          else get_or (set xs (index - 1) v) (i + 1) d)
        ≡ (if ltb i (index - 1) || leb (index - 1 + suc left) i
            then get_or xs i d
            else get_or xs (i + 1) d)
    moved = elim (ℕ_discrete i (index - 1)) [
      | yes here ↦
          let inside : (ltb i (index + 1 - 1) || leb (index + 1 - 1 + left) i) ≡ true =
            ground (arith, here) in
          let window : (ltb i (index - 1) || leb (index - 1 + suc left) i) ≡ false =
            ground (arith, here) in
          let next : index ≡ i + 1 = omega (arith, here) in
          rw (inside, window)
            (ap (λ j. get_or (set xs (index - 1) v) j d) here
              ∙ get_or-set_self xs (index - 1) v d (omega arith)
              ∙ ap (λ j. get_or xs j d) next)
      | no other ↦
          let same : (ltb i (index + 1 - 1) || leb (index + 1 - 1 + left) i)
              ≡ (ltb i (index - 1) || leb (index - 1 + suc left) i) =
            ground (arith, other) in
          elim (Bool-cases (ltb i (index - 1) || leb (index - 1 + suc left) i)) [
            | inl e ↦ rw (same, e) (keeps i other)
            | inr e ↦
                let after : i + 1 ≢ index - 1 = ground (arith, other) in
                rw (same, e) (keeps (i + 1) after)
          ]
    ]

length-shift {ℓ} :
    {A : Type ℓ} (d : A) (xs : List A) (index left : ℕ) → length (shift d xs index left) ≡ length xs
unfolding shift
length-shift d xs index zero = refl
length-shift d xs index (suc left) =
    length-shift d (set xs (index - 1) (get_or xs index d)) (index + 1) left
    ∙ length-set xs (index - 1) (get_or xs index d)

-- A full history forgets its oldest line: the others move one place down, and the line that was
-- entered comes last.
pub remember-full :
    (h : ℕ) (e : Editor) (i : ℕ)
    → e.len ≢ 0
    → e.history_len ≡ h
    → length e.history ≡ h
    → 0 < h
    → i < h
    → get_or (remember h e).history i []
      ≡ (if i == h - 1 then e.line else get_or e.history (i + 1) [])
unfolding remember
remember-full h e i some full size pos less =
    let enters : (e.len == 0 || (h == 0)) ≡ false = ground arith in
    let crowded : ltb e.history_len h ≡ false = ground (arith, full) in
    let moved = shift [] e.history 1 (h - 1) in
    let size' : length moved ≡ h = length-shift [] e.history 1 (h - 1) ∙ size in
    rw (enters, crowded, remember)
      (elim (ℕ_discrete i (h - 1)) [
        | yes last ↦
            let is_last : (i == h - 1) ≡ true = ground (arith, last) in
            rw is_last (
              ap (λ j. get_or (set moved (h - 1) e.line) j []) last
              ∙ get_or-set_self moved (h - 1) e.line [] (omega (arith, size', pos)))
        | no before ↦
            let not_last : (i == h - 1) ≡ false = ground (arith, before) in
            let inside : (ltb i (1 - 1) || leb (1 - 1 + (h - 1)) i) ≡ false =
              ground (arith, before, less) in
            rw not_last (
              get_or-set_ne moved (h - 1) i e.line [] (λ x. before (sym x))
              ∙ get_or-shift [] e.history 1 (h - 1) i (omega arith) (omega (arith, size))
              ∙ ap (λ t. if t then get_or e.history i [] else get_or e.history (i + 1) []) inside)
      ])
