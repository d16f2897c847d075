-- ===== src/Editor/Refine.antt =====
-- The array editor does what the zipper says.
use gen_os.Common.{
  ℕ, zero, suc, ◌+◌, ◌-◌, ◌≡◌, ◌≢◌, ◌≤◌, refl, ap, sym, ◌∙◌, true, false, not, ◌||◌, List, [], ◌∷◌,
  ◌++◌, append_assoc, ◌==◌, ltb, set, length, take, replicate, any, arith, length-append,
  length-replicate, Bool-cases, inl, inr,
}
use gen_os.Editor.{
  Editor, new, text, printable, unprintable, insert, backspace, delete, left, right, home, end,
  clear_line, load, overwrite, copy_within,
}
use gen_os.Editor.Arrays.{take-append, move_up, move_down}
use gen_os.Editor.Zipper.{
  Buffer, contents, reverse, Key, types, backspaces, deletes, moves_left, moves_right, goes_home,
  goes_end, clears, loads, press,
}

-- The array holds the two parts of the line, then unused bytes up to its size.
pub record Shows (n : ℕ) (e : Editor) (b : Buffer) : Type 0 where
  pub pad : List ℕ
  pub line : e.line ≡ reverse b.before ++ (b.after ++ pad)
  pub cursor : e.cursor ≡ length b.before
  pub len : e.len ≡ length b.before + length b.after
  pub size : length b.before + length b.after + length pad ≡ n

length-reverse : (xs : List ℕ) → length (reverse xs) ≡ length xs
unfolding reverse
length-reverse [] = refl
length-reverse (x ∷ xs) = omega (arith, length-append (reverse xs) (x ∷ []), length-reverse xs)

reverse-append : (xs : List ℕ) (y : ℕ) → reverse (xs ++ (y ∷ [])) ≡ y ∷ reverse xs
unfolding reverse
reverse-append [] y = refl
reverse-append (x ∷ xs) y = ap (λ zs. zs ++ (x ∷ [])) (reverse-append xs y)

reverse-reverse : (xs : List ℕ) → reverse (reverse xs) ≡ xs
unfolding reverse
reverse-reverse [] = refl
reverse-reverse (x ∷ xs) = reverse-append (reverse xs) x ∙ ap (λ zs. x ∷ zs) (reverse-reverse xs)

overwrite-replicate :
    (bytes : List ℕ) (n : ℕ)
    → length bytes ≤ n
    → overwrite (replicate {A = ℕ} n 0) 0 bytes ≡ bytes ++ replicate {A = ℕ} (n - length bytes) 0
unfolding overwrite
overwrite-replicate [] zero h = refl
overwrite-replicate [] (suc n) h =
    let all : suc n ≡ suc n - 0 = omega arith in ap (λ k. replicate {A = ℕ} k 0) all
overwrite-replicate (x ∷ xs) zero h = absurd (omega arith)
overwrite-replicate (x ∷ xs) (suc n) h =
    let left : n - length xs ≡ suc n - suc (length xs) = omega arith in
    ap (λ zs. x ∷ zs)
      (overwrite-replicate xs n (omega arith) ∙ ap (λ k. xs ++ replicate {A = ℕ} k 0) left)

-- One byte moves across the cursor.
reverse-cons : (x : ℕ) (xs ys : List ℕ) → reverse (x ∷ xs) ++ ys ≡ reverse xs ++ (x ∷ ys)
unfolding reverse
reverse-cons x xs ys = append_assoc (reverse xs) (x ∷ []) ys

-- The visible line and its cursor.
pub Shows-text :
    (n : ℕ) (e : Editor) (b : Buffer)
    → Shows n e b
    → (text e ≡ contents b) × (e.cursor ≡ length b.before)
Shows-text n e b s = (
  ap (take e.len) (s.line ∙ sym (append_assoc (reverse b.before) b.after s.pad))
      ∙ take-append (contents b) s.pad e.len
          (omega (arith, s.len, length-append (reverse b.before) b.after, length-reverse b.before)),
  s.cursor,
)

abbrev pub zip : List ℕ → List ℕ → Buffer
zip before after = record { before = before; after = after }

module _ (n : ℕ) (e : Editor) where
  insert-Shows :
      (xs ys : List ℕ) (byte : ℕ)
      → Shows n e (zip xs ys)
      → Shows n (insert n e byte).1 (press n (zip xs ys) (types byte))
  unfolding insert press
  insert-Shows xs ys byte s = elim (Bool-cases (not (printable byte) || (e.len == n))) [
    | inl refused ↦
        let same : (not (printable byte) || (length xs + length ys == n)) ≡ true =
          ground (arith, s.len) in
        rw (refused, same, insert) s
    | inr typed ↦
        let same : (not (printable byte) || (length xs + length ys == n)) ≡ false =
          ground (arith, s.len) in
        rw (typed, same, insert) (moved s.pad (s.line) s.size (ground (arith, s.len)))
  ]
    where
      moved :
          (pad : List ℕ)
          → e.line ≡ reverse xs ++ (ys ++ pad)
          → length xs + length ys + length pad ≡ n
          → length xs + length ys ≢ n
          → Shows n
              (record e {
                line = set (copy_within e.line e.cursor e.len (e.cursor + 1)) e.cursor byte;
                cursor = e.cursor + 1;
                len = e.len + 1;
                history_cursor = e.history_len;
              })
              (zip (byte ∷ xs) ys)
      moved [] line size less = absurd (less (omega (arith, size)))
      moved (p ∷ pad) line size less = record {
        pad = pad;
        line =
            ap (λ l. set (copy_within l e.cursor e.len (e.cursor + 1)) e.cursor byte) line
            ∙ move_up (reverse xs) ys pad p byte e.len e.cursor
                (omega (arith, s.cursor, length-reverse xs)) (omega (arith, s.len, s.cursor))
            ∙ sym (reverse-cons byte xs (ys ++ pad));
        cursor = omega (arith, s.cursor);
        len = omega (arith, s.len);
        size = omega (arith, size);
      }

  -- The removal of the byte `c` that stands at the position `cursor`.
  removed :
      (xs ys pad : List ℕ) (c cursor history_cursor : ℕ)
      → e.line ≡ reverse xs ++ (c ∷ ys ++ pad)
      → cursor ≡ length xs
      → e.len ≡ length xs + 1 + length ys
      → length xs + 1 + length ys + length pad ≡ n
      → Shows n
          (record e {
            line = set (copy_within e.line (cursor + 1) e.len cursor) (e.len - 1) 0;
            cursor = cursor;
            len = e.len - 1;
            history_cursor = history_cursor;
          })
          (zip xs ys)
  removed xs ys pad c cursor history_cursor line at len size = record {
    pad = 0 ∷ pad;
    line =
        ap (λ l. set (copy_within l (cursor + 1) e.len cursor) (e.len - 1) 0) line
        ∙ move_down (reverse xs) ys pad c e.len cursor (omega (arith, length-reverse xs))
            (omega (arith, len));
    cursor = at;
    len = omega (arith, len);
    size = omega (arith, size);
  }

  backspace-Shows :
      (xs ys : List ℕ)
      → Shows n e (zip xs ys)
      → Shows n (backspace e).1 (press n (zip xs ys) backspaces)
  unfolding backspace press
  backspace-Shows [] ys s =
      let none : (e.cursor == 0) ≡ true = ground (arith, s.cursor) in rw (none, backspace) s
  backspace-Shows (x ∷ xs) ys s =
      let some : (e.cursor == 0) ≡ false = ground (arith, s.cursor) in
      rw (some, backspace)
        (removed xs ys s.pad x (e.cursor - 1) e.history_len
          (s.line ∙ reverse-cons x xs (ys ++ s.pad)) (omega (arith, s.cursor))
          (omega (arith, s.len)) (omega (arith, s.size)))

  delete-Shows :
      (xs ys : List ℕ) → Shows n e (zip xs ys) → Shows n (delete e).1 (press n (zip xs ys) deletes)
  unfolding delete press
  delete-Shows xs [] s =
      let none : (e.cursor == e.len) ≡ true = ground (arith, s.cursor, s.len) in rw (none, delete) s
  delete-Shows xs (y ∷ ys) s =
      let some : (e.cursor == e.len) ≡ false = ground (arith, s.cursor, s.len) in
      rw (some, delete)
        (removed xs ys s.pad y e.cursor e.history_len s.line s.cursor (omega (arith, s.len))
          (omega (arith, s.size)))

  left-Shows :
      (xs ys : List ℕ) → Shows n e (zip xs ys) → Shows n (left e) (press n (zip xs ys) moves_left)
  unfolding left press
  left-Shows [] ys s = record {
    pad = s.pad;
    line = s.line;
    cursor = omega (arith, s.cursor);
    len = s.len;
    size = s.size;
  }
  left-Shows (x ∷ xs) ys s = record {
    pad = s.pad;
    line = s.line ∙ reverse-cons x xs (ys ++ s.pad);
    cursor = omega (arith, s.cursor);
    len = omega (arith, s.len);
    size = omega (arith, s.size);
  }

  right-Shows :
      (xs ys : List ℕ) → Shows n e (zip xs ys) → Shows n (right e) (press n (zip xs ys) moves_right)
  unfolding right press
  right-Shows xs [] s = record {
    pad = s.pad;
    line = s.line;
    cursor = omega (arith, s.cursor, s.len);
    len = s.len;
    size = s.size;
  }
  right-Shows xs (y ∷ ys) s = record {
    pad = s.pad;
    line = s.line ∙ sym (reverse-cons y xs (ys ++ s.pad));
    cursor = omega (arith, s.cursor, s.len);
    len = omega (arith, s.len);
    size = omega (arith, s.size);
  }

  home-Shows :
      (xs ys : List ℕ) → Shows n e (zip xs ys) → Shows n (home e) (press n (zip xs ys) goes_home)
  unfolding home press reverse
  home-Shows xs ys s =
      let both : length (reverse xs ++ ys) ≡ length xs + length ys =
        omega (arith, length-append (reverse xs) ys, length-reverse xs) in
      record {
        pad = s.pad;
        line = s.line ∙ sym (append_assoc (reverse xs) ys s.pad);
        cursor = refl;
        len = omega (arith, s.len, both);
        size = omega (arith, s.size, both);
      }

  end-Shows :
      (xs ys : List ℕ) → Shows n e (zip xs ys) → Shows n (end e) (press n (zip xs ys) goes_end)
  unfolding end press
  end-Shows xs ys s =
      let both : length (reverse (reverse xs ++ ys)) ≡ length xs + length ys = omega (
        arith,
        length-reverse (reverse xs ++ ys),
        length-append (reverse xs) ys,
        length-reverse xs,
      ) in
      record {
        pad = s.pad;
        line =
            s.line
            ∙ sym (append_assoc (reverse xs) ys s.pad)
            ∙ ap (λ zs. zs ++ s.pad) (sym (reverse-reverse (reverse xs ++ ys)));
        cursor = omega (arith, s.len, both);
        len = omega (arith, s.len, both);
        size = omega (arith, s.size, both);
      }

  clear_line-Shows : (b : Buffer) → Shows n (clear_line n e) (press n b clears)
  unfolding clear_line press reverse
  clear_line-Shows b = record {
    pad = replicate n 0;
    line = refl;
    cursor = refl;
    len = refl;
    size = omega (arith, length-replicate {A = ℕ} n 0);
  }

  load-Shows :
      (b : Buffer) (bytes : List ℕ)
      → Shows n e b
      → Shows n (load n e bytes).1 (press n b (loads bytes))
  unfolding load press
  load-Shows b bytes s = elim (Bool-cases (ltb n (length bytes) || any unprintable bytes)) [
    | inl refused ↦ rw (refused, load) s
    | inr loaded ↦
        rw (loaded, load)
          (record {
            pad = replicate (n - length bytes) 0;
            line =
                overwrite-replicate bytes n (within loaded)
                ∙ ap (λ zs. zs ++ replicate {A = ℕ} (n - length bytes) 0)
                    (sym (reverse-reverse bytes));
            cursor = sym (length-reverse bytes);
            len = omega (arith, length-reverse bytes);
            size = omega (
              arith,
              length-reverse bytes,
              length-replicate {A = ℕ} (n - length bytes) 0,
              within loaded,
            );
          })
  ]
    where
      within : (ltb n (length bytes) || any unprintable bytes) ≡ false → length bytes ≤ n
      within fits = ground arith

-- The editor's calls for the keys.
unfoldable pub handle : ℕ → Editor → Key → Editor
handle n e (types byte) = (insert n e byte).1
handle n e backspaces = (backspace e).1
handle n e deletes = (delete e).1
handle n e moves_left = left e
handle n e moves_right = right e
handle n e goes_home = home e
handle n e goes_end = end e
handle n e clears = clear_line n e
handle n e (loads bytes) = (load n e bytes).1

unfoldable pub handle_all : ℕ → Editor → List Key → Editor
handle_all n e [] = e
handle_all n e (key ∷ keys) = handle_all n (handle n e key) keys

unfoldable pub press_all : ℕ → Buffer → List Key → Buffer
press_all n b [] = b
press_all n b (key ∷ keys) = press_all n (press n b key) keys

handle-Shows :
    (n : ℕ) (e : Editor) (b : Buffer) (key : Key)
    → Shows n e b
    → Shows n (handle n e key) (press n b key)
unfolding handle
handle-Shows n e b (types byte) s = insert-Shows n e b.before b.after byte s
handle-Shows n e b backspaces s = backspace-Shows n e b.before b.after s
handle-Shows n e b deletes s = delete-Shows n e b.before b.after s
handle-Shows n e b moves_left s = left-Shows n e b.before b.after s
handle-Shows n e b moves_right s = right-Shows n e b.before b.after s
handle-Shows n e b goes_home s = home-Shows n e b.before b.after s
handle-Shows n e b goes_end s = end-Shows n e b.before b.after s
handle-Shows n e b clears s = clear_line-Shows n e b
handle-Shows n e b (loads bytes) s = load-Shows n e b bytes s

handle_all-Shows :
    (n : ℕ) (e : Editor) (b : Buffer) (keys : List Key)
    → Shows n e b
    → Shows n (handle_all n e keys) (press_all n b keys)
unfolding handle_all press_all
handle_all-Shows n e b [] s = s
handle_all-Shows n e b (key ∷ keys) s =
    handle_all-Shows n (handle n e key) (press n b key) keys (handle-Shows n e b key s)

-- After any keys the line and the cursor of a new editor are those of the zipper: its array with
-- moved bytes, its length and its cursor implement a list that is cut at the cursor.
pub handle_all-press_all :
    (n h : ℕ) (keys : List Key)
    → (text (handle_all n (new n h) keys) ≡ contents (press_all n (zip [] []) keys))
      × ((handle_all n (new n h) keys).cursor ≡ length (press_all n (zip [] []) keys).before)
unfolding new reverse
handle_all-press_all n h keys = Shows-text n _ _ (
    handle_all-Shows n (new n h) (zip [] []) keys (record {
      pad = replicate n 0;
      line = refl;
      cursor = refl;
      len = refl;
      size = omega (arith, length-replicate {A = ℕ} n 0);
    }))
