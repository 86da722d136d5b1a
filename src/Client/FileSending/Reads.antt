-- ===== src/Client/FileSending/Reads.antt =====
-- client/client.go: the loop of `sendFile` reads the whole file.
use end_to_end_chat.Base.{
  ℕ, zero, suc, ◌≡◌, ◌<◌, ◌≤◌, refl, ap, ◌∙◌, arith, Bytes, [], ◌∷◌, ◌++◌, All, length, length-drop,
  length-take, take, drop,
}
use end_to_end_chat.Client.FileSending.{reads_of, concat}

take-drop : (n : ℕ) (xs : Bytes) → take n xs ++ drop n xs ≡ xs
take-drop zero xs = refl
take-drop (suc n) [] = refl
take-drop (suc n) (x ∷ xs) = ap (◌∷◌ x) (take-drop n xs)

-- With a buffer that is not empty and as many turns as there are bytes, the loop comes to the end of
-- the file: the chunks together are the file, and none of them is empty or longer than the buffer.
pub reads_of-whole :
    (turns n : ℕ) (input : Bytes)
    → 0 < n
    → length input ≤ turns
    → (concat (reads_of turns n input) ≡ input)
      × All (λ (chunk : Bytes). (0 < length chunk) × (length chunk ≤ n)) (reads_of turns n input)
unfolding reads_of
reads_of-whole zero n [] room enough = (refl, tt)
reads_of-whole zero n (x ∷ input) room enough = absurd (omega arith)
reads_of-whole (suc turns) n [] room enough = (refl, tt)
reads_of-whole (suc turns) n (x ∷ input) room enough =
    let (whole, sized) =
      reads_of-whole turns n (drop n (x ∷ input)) room (omega (arith, length-drop n (x ∷ input))) in
    (
      ap (λ l. take n (x ∷ input) ++ l) whole ∙ take-drop n (x ∷ input),
      ((omega (arith, length-take n (x ∷ input)), omega (arith, length-take n (x ∷ input))), sized),
    )
