-- ===== src/FileIo/Bytes.antt =====
-- The bytes of a file.
use ras_pi_arduino.Prelude.{ℕ, zero, suc, ◌+◌, ◌-◌, ◌≤◌, ◌<◌, ◌^◌, ◌≡◌, refl, arith}
use ras_pi_arduino.Prelude.{
  some, List, [], ◌∷◌, length, drop, get_or, leb, drop_all, ◌==◌, if◌then◌else◌, Bool-cases, inl,
  inr,
}
use ras_pi_arduino.Prelude.{
  take, replicate, length-take, drop-append_right, take-append_left, take_all, ◌++◌, true, false,
  ap, ◌∙◌,
}
use ras_pi_arduino.Prelude.Bits.{u32}
use ras_pi_arduino.Prelude.Signed.{ℤ, pos, minus_one}
use ras_pi_arduino.FileIo.{
  File, CFile, getc, fseek, fread, fwrite, seek, peek, position, read, write,
}

-- Where peek leaves the position: the third argument of fseek is the position behind the byte.
abbrev pub place_after : CFile → ℕ
place_after c = if c.at == 0 then 1 else if c.at == 1 then length c.content + 1 else c.at + 1

unfoldable pub peeked : CFile → ℤ × CFile
peeked c =
    if leb (length c.content) c.at
    then (minus_one, c)
    else (pos (get_or c.content c.at 0), record c { at = place_after c })

drop-get_or : (n : ℕ) (xs : List ℕ) → n < length xs → drop n xs ≡ get_or xs n 0 ∷ drop (n + 1) xs
drop-get_or n [] h = absurd (omega arith)
drop-get_or zero (x ∷ xs) h = refl
drop-get_or (suc n) (x ∷ xs) h =
    let e : suc n + 1 ≡ suc (n + 1) = omega arith in rw e (drop-get_or n xs (omega arith))

getc-byte :
    (c : CFile)
    → c.at < length c.content
    → getc c ≡ (pos (get_or c.content c.at 0), record c { at = c.at + 1 })
unfolding getc
getc-byte c h = rw (getc, drop-get_or c.at c.content h) refl

getc-end : (c : CFile) → length c.content ≤ c.at → getc c ≡ (minus_one, c)
unfolding getc
getc-end c h = rw (getc, drop_all c.at c.content h) refl

-- peek returns the byte at the position, or -1 at the end of the file, as it should; but where
-- there is a byte it moves the position: from 0 to 1, from 1 to the place after the end of the
-- file, and from any other by one. The positions are below 2 ^ 31.
pub peek-peeked :
    (f : File) (c : CFile)
    → f.file ≡ some c
    → c.at < 2 ^ 31
    → peek f ≡ ((peeked c).0, record f { file = some (peeked c).1 })
unfolding peek position fseek peeked
peek-peeked f c here small = elim (Bool-cases (leb (length c.content) c.at)) [
  | inl e ↦ ground (arith, e, here, getc-end c)
  | inr e ↦ ground (arith, e, here, getc-byte c)
]

drop_at_take : (n : ℕ) (xs ys : List ℕ) → n ≤ length xs → drop n (take n xs ++ ys) ≡ ys
drop_at_take n xs ys h =
    let e : length (take n xs) ≡ n = omega (arith, length-take n xs) in
    let z : n - length (take n xs) ≡ 0 = omega (arith, e) in
    drop-append_right n (take n xs) ys (omega (arith, e)) ∙ ap (λ k. drop k ys) z

take_whole : (xs ys : List ℕ) → take (length xs) (xs ++ ys) ≡ xs
take_whole xs ys =
    take-append_left (length xs) xs ys (omega arith) ∙ take_all (length xs) xs (omega arith)

-- The bytes from where they were written on.
fread-fwrite :
    (bs : List ℕ) (c : CFile)
    → c.append ≡ false
    → 0 < length bs
    → c.at ≤ length c.content
    → fread (length bs) (record (fwrite bs c) { at = c.at })
      ≡ (1, bs, record (fwrite bs c) { at = c.at + length bs })
unfolding fread fwrite
fread-fwrite bs c plain some_bytes inside =
    let place = if c.append then length c.content else c.at in
    let here : place ≡ c.at = rw plain refl in
    let none_between : place - length c.content ≡ 0 = omega (arith, here) in
    let behind = bs ++ drop (place + length bs) c.content in
    let dropped : drop c.at (fwrite bs c).content ≡ behind =
      ap (λ n. drop c.at (take place c.content ++ (replicate n 0 ++ behind))) none_between
      ∙ ap (λ n. drop c.at (take n c.content ++ behind)) here
      ∙ drop_at_take c.at c.content behind inside in
    let taken : take (length bs) (drop c.at (fwrite bs c).content) ≡ bs =
      ap (take (length bs)) dropped ∙ take_whole bs (drop (place + length bs) c.content) in
    ground (arith, taken)

-- `write`, `seek` back to the position before it, and `read` of as many bytes.
unfoldable pub write_then_read : List ℕ → File → ℤ × List ℕ × File
write_then_read bs f = read (length bs) (seek (position f) (write true bs f).1).1

-- What write stores, read gives back from the same position, if the file is not opened to append
-- and the position is at its end at most and below 2 ^ 31. read then returns 1, the number of
-- items. The array is not empty and has less than 2 ^ 16 bytes, which read can ask for.
pub write_then_read-written :
    (bs : List ℕ) (f : File) (c : CFile)
    → f.file ≡ some c
    → c.append ≡ false
    → 0 < length bs
    → length bs < 2 ^ 16
    → c.at ≤ length c.content
    → c.at < 2 ^ 31
    → write_then_read bs f
      ≡ (pos 1, bs, record f { file = some (record (fwrite bs c) { at = c.at + length bs }) })
unfolding write_then_read read seek position write fseek fread
write_then_read-written bs f c here plain some_bytes few inside small =
    let whole : u32 c.at ≡ c.at = omega arith in
    ground (arith, here, whole, fread-fwrite bs c plain some_bytes inside)
