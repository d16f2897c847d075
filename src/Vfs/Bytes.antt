-- ===== src/Vfs/Bytes.antt =====
-- The bytes of a file: what the loops that copy into the array leave in it.
use gen_os.Common.{
  ℕ, zero, suc, ◌+◌, ◌≤◌, ◌≡◌, refl, ap, sym, ◌∙◌, List, [], ◌∷◌, ◌++◌, take, length, set,
  length-set, arith,
}
use gen_os.Vfs.{write_bytes}

pub length-write_bytes :
    (bytes : List ℕ) (start : ℕ) (more : List ℕ)
    → length (write_bytes bytes start more) ≡ length bytes
unfolding write_bytes
length-write_bytes bytes start [] = refl
length-write_bytes bytes start (byte ∷ more) =
    length-write_bytes (set bytes start byte) (start + 1) more ∙ length-set bytes start byte

write_bytes-shift :
    (x : ℕ) (bytes : List ℕ) (start : ℕ) (more : List ℕ)
    → write_bytes (x ∷ bytes) (suc start) more ≡ x ∷ write_bytes bytes start more
unfolding write_bytes
write_bytes-shift x bytes start [] = refl
write_bytes-shift x bytes start (byte ∷ more) =
    let next : suc start + 1 ≡ suc (start + 1) = omega arith in
    ap (λ k. write_bytes (x ∷ set bytes start byte) k more) next
    ∙ write_bytes-shift x (set bytes start byte) (start + 1) more

-- What was written stands where it was written, and nothing before it changed.
pub take-write_bytes :
    (bytes : List ℕ) (start : ℕ) (more : List ℕ)
    → start + length more ≤ length bytes
    → take (start + length more) (write_bytes bytes start more) ≡ take start bytes ++ more
unfolding write_bytes
take-write_bytes bytes zero [] fits = refl
take-write_bytes [] zero (byte ∷ more) fits = absurd (omega arith)
take-write_bytes (x ∷ bytes) zero (byte ∷ more) fits =
    let one : ◌≡◌ {A = ℕ} (0 + 1) (suc 0) = refl in
    let sum : 0 + length (byte ∷ more) ≡ suc (length more) = omega arith in
    let none_before : 0 + length more ≡ length more = omega arith in
    let rest : take (length more) (write_bytes bytes 0 more) ≡ more =
      ap (λ k. take k (write_bytes bytes 0 more)) (sym none_before)
      ∙ take-write_bytes bytes 0 more (omega arith) in
    ap (λ k. take k (write_bytes (byte ∷ bytes) 1 more)) sum
    ∙ ap (take (suc (length more)))
        (ap (λ k. write_bytes (byte ∷ bytes) k more) one ∙ write_bytes-shift byte bytes 0 more)
    ∙ ap (λ ys. byte ∷ ys) rest
take-write_bytes [] (suc start) more fits = absurd (omega arith)
take-write_bytes (x ∷ bytes) (suc start) more fits =
    let sum : suc start + length more ≡ suc (start + length more) = omega arith in
    ap (λ k. take k (write_bytes (x ∷ bytes) (suc start) more)) sum
    ∙ ap (take (suc (start + length more))) (write_bytes-shift x bytes start more)
    ∙ ap (λ ys. x ∷ ys) (take-write_bytes bytes start more (omega arith))

pub take-write_bytes_start :
    (bytes more : List ℕ)
    → length more ≤ length bytes
    → take (length more) (write_bytes bytes 0 more) ≡ more
take-write_bytes_start bytes more fits =
    let sum : 0 + length more ≡ length more = omega arith in
    ap (λ k. take k (write_bytes bytes 0 more)) (sym sum)
    ∙ take-write_bytes bytes 0 more (omega arith)
