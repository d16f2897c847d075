-- ===== src/Editor/Arrays.antt =====
-- The moves of bytes in the array of the line editor (userspace/shell/src/editor.rs).
use gen_os.Common.{
  ℕ, zero, suc, ◌+◌, ◌-◌, ◌≡◌, refl, ap, sym, ◌∙◌, List, [], ◌∷◌, ◌++◌, append_assoc, set, length,
  take, drop, arith, length-append,
}
use gen_os.Editor.{overwrite, copy_within}

-- Operations at a position that lies behind a prefix act on what follows the prefix.
pub drop-append {ℓ} :
    {A : Type ℓ} (bs xs : List A) (p k : ℕ) → p ≡ length bs + k → drop p (bs ++ xs) ≡ drop k xs
drop-append [] xs p k e = ap (λ n. drop n xs) (omega arith)
drop-append (b ∷ bs) xs zero k e = absurd (omega arith)
drop-append (b ∷ bs) xs (suc p) k e = drop-append bs xs p k (omega arith)

pub take-append {ℓ} : {A : Type ℓ} (bs xs : List A) (p : ℕ) → p ≡ length bs → take p (bs ++ xs) ≡ bs
take-append [] xs p e = ap (λ n. take n xs) e
take-append (b ∷ bs) xs zero e = absurd (omega arith)
take-append (b ∷ bs) xs (suc p) e = ap (λ ys. b ∷ ys) (take-append bs xs p (omega arith))

pub set-append {ℓ} :
    {A : Type ℓ} (bs xs : List A) (p k : ℕ) (v : A)
    → p ≡ length bs + k
    → set (bs ++ xs) p v ≡ bs ++ set xs k v
set-append [] xs p k v e = ap (λ n. set xs n v) (omega arith)
set-append (b ∷ bs) xs zero k v e = absurd (omega arith)
set-append (b ∷ bs) xs (suc p) k v e = ap (λ ys. b ∷ ys) (set-append bs xs p k v (omega arith))

overwrite-append :
    (bs xs ys : List ℕ) (p k : ℕ)
    → p ≡ length bs + k
    → overwrite (bs ++ xs) p ys ≡ bs ++ overwrite xs k ys
unfolding overwrite
overwrite-append [] xs ys p k e = ap (λ n. overwrite xs n ys) (omega arith)
overwrite-append (b ∷ bs) xs ys zero k e = absurd (omega arith)
overwrite-append (b ∷ bs) xs ys (suc p) k e =
    ap (λ zs. b ∷ zs) (overwrite-append bs xs ys p k (omega arith))

pub overwrite-zero :
    (cs ds ys : List ℕ) → length ys ≡ length cs → overwrite (cs ++ ds) 0 ys ≡ ys ++ ds
unfolding overwrite
overwrite-zero [] [] [] h = refl
overwrite-zero [] (d ∷ ds) [] h = refl
overwrite-zero [] ds (y ∷ ys) h = absurd (omega (arith, h))
overwrite-zero (c ∷ cs) ds [] h = absurd (omega (arith, h))
overwrite-zero (c ∷ cs) ds (y ∷ ys) h =
    ap (λ xs. y ∷ xs) (overwrite-zero cs ds ys (omega (arith, h)))

copy_within-drop :
    (xs moved rest : List ℕ) (first last position : ℕ)
    → drop first xs ≡ moved ++ rest
    → last - first ≡ length moved
    → copy_within xs first last position ≡ overwrite xs position moved
unfolding copy_within
copy_within-drop xs moved rest first last position e size =
    ap (λ ys. overwrite xs position (take (last - first) ys)) e
    ∙ ap (overwrite xs position) (take-append moved rest (last - first) size)

-- An element before a list, and one behind it, leave lists of the same length to be overwritten.
split_first :
    (xs : List ℕ) (p : ℕ)
    → (z : ℕ) × (cs : List ℕ) × ((pad : List ℕ) → xs ++ p ∷ pad ≡ z ∷ cs ++ pad)
      × (length xs ≡ length cs)
split_first [] p = (p, [], (λ pad. refl), refl)
split_first (x ∷ xs) p = (
  x,
  xs ++ p ∷ [],
  (λ pad. ap (λ ys. x ∷ ys) (sym (append_assoc xs (p ∷ []) pad))),
  omega (arith, length-append xs (p ∷ [])),
)

split_last :
    (xs : List ℕ) (c : ℕ)
    → (z : ℕ) × (cs : List ℕ) × ((pad : List ℕ) → c ∷ xs ++ pad ≡ cs ++ z ∷ pad)
      × (length xs ≡ length cs)
split_last [] c = (c, [], (λ pad. refl), refl)
split_last (x ∷ xs) c =
    let rest = split_last xs x in
    (rest.0, c ∷ rest.1, (λ pad. ap (λ ys. c ∷ ys) (rest.2 pad)), omega (arith, rest.3))

-- `insert`: the bytes after the cursor move up by one, over the first of the unused bytes.
pub move_up :
    (before after pad : List ℕ) (p byte len cursor : ℕ)
    → cursor ≡ length before
    → len ≡ cursor + length after
    → set (copy_within (before ++ (after ++ p ∷ pad)) cursor len (cursor + 1)) cursor byte
      ≡ before ++ (byte ∷ after ++ pad)
unfolding overwrite
move_up before after pad p byte len cursor at e =
    let first = split_first after p in
    ap (λ xs. set xs cursor byte)
      (copy_within-drop (before ++ (after ++ p ∷ pad)) after (p ∷ pad) cursor len (cursor + 1)
        (drop-append before (after ++ p ∷ pad) cursor 0 (omega arith)) (omega (arith, e)))
    ∙ ap (λ xs. set xs cursor byte)
        (overwrite-append before (after ++ p ∷ pad) after (cursor + 1) 1 (omega arith))
    ∙ ap (λ xs. set (before ++ overwrite xs 1 after) cursor byte) (first.2 pad)
    ∙ ap (λ xs. set (before ++ (first.0 ∷ xs)) cursor byte)
        (overwrite-zero first.1 pad after first.3)
    ∙ set-append before (first.0 ∷ after ++ pad) cursor 0 byte (omega arith)

-- `backspace` and `delete`: the bytes after a removed one move down, and the last becomes 0.
pub move_down :
    (before after pad : List ℕ) (c len cursor : ℕ)
    → cursor ≡ length before
    → len ≡ cursor + 1 + length after
    → set (copy_within (before ++ (c ∷ after ++ pad)) (cursor + 1) len cursor) (len - 1) 0
      ≡ before ++ (after ++ 0 ∷ pad)
move_down before after pad c len cursor at e =
    let last = split_last after c in
    ap (λ xs. set xs (len - 1) 0)
      (copy_within-drop (before ++ (c ∷ after ++ pad)) after pad (cursor + 1) len cursor
        (drop-append before (c ∷ after ++ pad) (cursor + 1) 1 (omega arith)) (omega (arith, e)))
    ∙ ap (λ xs. set xs (len - 1) 0)
        (overwrite-append before (c ∷ after ++ pad) after cursor 0 (omega arith))
    ∙ ap (λ xs. set (before ++ overwrite xs 0 after) (len - 1) 0) (last.2 pad)
    ∙ ap (λ xs. set (before ++ xs) (len - 1) 0) (overwrite-zero last.1 (last.0 ∷ pad) after last.3)
    ∙ set-append before (after ++ last.0 ∷ pad) (len - 1) (length after) 0 (omega (arith, e, at))
    ∙ ap (λ xs. before ++ xs) (set-append after (last.0 ∷ pad) (length after) 0 0 (omega arith))
